-- ===== src/Shell/Child/Names.antt =====
-- HW2/terminal.c: the name of a child's log, which is put into `char filename[100]`.
use advanced_c_language_proj.Base.{
  ℕ, ◌+◌, ◌^◌, ◌-◌, ◌≤◌, ◌<◌, ◌≡◌, ◌≢◌, ◌∙◌, sym, ap, ◌∷◌, ◌++◌, some, All-append, All-weaken,
  append_assoc, length, length-append, length-replicate, replicate, arith,
}
use mathlib.Core.List.{append_cancel_right}
use advanced_c_language_proj.Base.Text.{Text, codes, decimal, Absent, after_last, after_last-append}
use advanced_c_language_proj.Base.Decimal.{
  IsDigit, decimal-IsDigit, length-decimal, decimal_injective,
}
use advanced_c_language_proj.Shell.Child.{Tm, padded, time_stamp, log_name}

-- What stands behind the last underscore of the name.
numbered : ℕ → Text
numbered i = decimal i ++ codes ".log"

after_last-log_name : (tm : Tm) (i : ℕ) → after_last b'_' (log_name tm i) ≡ some (numbered i)
unfolding log_name numbered
after_last-log_name tm i =
    let plain : Absent b'_' (numbered i) =
      All-append (λ d. d ≢ b'_') (decimal i) (codes ".log")
        (All-weaken IsDigit (λ d. d ≢ b'_') (λ d h. omega arith) (decimal i) (decimal-IsDigit i))
        (omega arith, (omega arith, (omega arith, (omega arith, tt)))) in
    rw (sym (append_assoc (time_stamp tm) (codes "_child") (b'_' ∷ numbered i)))
      (after_last-append b'_' (time_stamp tm ++ codes "_child") (numbered i) plain)

length-padded : (k n : ℕ) → n < 10 ^ 10 → k ≤ 10 → length (padded k n) ≤ 10
unfolding padded
length-padded k n h h' = omega (
  arith,
  length-append {A = ℕ} (replicate (k - length (decimal n)) b'0') (decimal n),
  length-replicate {A = ℕ} (k - length (decimal n)) b'0',
  length-decimal 9 n h,
)

-- The children of one line never share a log, however much time is between their forks.
pub log_name_injective : (now then : Tm) (i j : ℕ) → log_name now i ≡ log_name then j → i ≡ j
unfolding numbered
log_name_injective now then i j e =
    let same : some (numbered i) ≡ some (numbered j) =
      sym (after_last-log_name now i) ∙ (ap (after_last b'_') e ∙ after_last-log_name then j) in
    decimal_injective i j (append_cancel_right (decimal i) (decimal j) (codes ".log") (cc same))

-- What `localtime` gives: an `int` in each field, and no year before 1900.
pub record IsTm (tm : Tm) : Type 0 where
  pub mday : tm.tm_mday < 2 ^ 31
  pub mon : tm.tm_mon < 12
  pub year : tm.tm_year < 2 ^ 31
  pub hour : tm.tm_hour < 24
  pub min : tm.tm_min < 60
  pub sec : tm.tm_sec < 61

length-dashed :
    (n : ℕ) (a b : Text) → length a ≤ 10 → length b ≤ n → length (a ++ b'-' ∷ b) ≤ 11 + n
length-dashed n a b h h' = omega (arith, length-append a (b'-' ∷ b))

length-time_stamp : (tm : Tm) → IsTm tm → length (time_stamp tm) ≤ 65
unfolding time_stamp
length-time_stamp tm h =
    length-dashed 54 _ _ (length-padded 2 tm.tm_mday (omega (arith, h.mday)) (omega arith)) (
      length-dashed 43 _ _ (length-padded 2 (tm.tm_mon + 1) (omega (arith, h.mon)) (omega arith)) (
        length-dashed 32 _ _
          (length-padded 4 (tm.tm_year + 1900) (omega (arith, h.year)) (omega arith))
          (length-dashed 21 _ _ (length-padded 2 tm.tm_hour (omega (arith, h.hour)) (omega arith)) (
            length-dashed 10 _ _ (length-padded 2 tm.tm_min (omega (arith, h.min)) (omega arith))
              (length-padded 2 tm.tm_sec (omega (arith, h.sec)) (omega arith))))))

-- The name and its terminating zero fit into the array.
pub length-log_name : (tm : Tm) (i : ℕ) → IsTm tm → i < 2 ^ 31 → length (log_name tm i) + 1 ≤ 100
unfolding log_name
length-log_name tm i h small = omega (
  arith,
  length-append (time_stamp tm) (codes "_child_" ++ (decimal i ++ codes ".log")),
  length-append (decimal i) (codes ".log"),
  length-time_stamp tm h,
  length-decimal 9 i (omega arith),
)
