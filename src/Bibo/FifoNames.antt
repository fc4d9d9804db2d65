-- ===== src/Bibo/FifoNames.antt =====
-- Midterm_HW3: the names of the two FIFOs of a client, which biboServer.c and biboClient.c put into arrays of
-- 35 bytes.
use mathlib.Core.List.{append_cancel_left, append_cancel_right}
use advanced_c_language_proj.Base.{
  ℕ, ◌+◌, ◌^◌, ◌≤◌, ◌<◌, ◌≡◌, ◌≢◌, ap, get_or, ◌++◌, length, length-append, arith,
}
use advanced_c_language_proj.Base.Text.{Text, codes, decimal}
use advanced_c_language_proj.Base.Decimal.{length-decimal, decimal_injective}

unfoldable pub client_to_server_fifo_name : ℕ → Text
unfolding decimal
client_to_server_fifo_name client_pid =
    codes "/tmp/client_to_server_" ++ (decimal client_pid ++ codes "_fifo")

unfoldable pub server_to_client_fifo_name : ℕ → Text
unfolding decimal
server_to_client_fifo_name client_pid =
    codes "/tmp/server_to_client_" ++ (decimal client_pid ++ codes "_fifo")

-- The names of a client fit into their arrays with the terminating zero when its process id has at most
-- seven digits, are different, and are not those of another client.
pub fifo_names_lem :
    (pid other : ℕ)
    → pid < 10 ^ 7
    → pid ≢ other
    → (length (client_to_server_fifo_name pid) + 1 ≤ 35)
      × (length (server_to_client_fifo_name pid) + 1 ≤ 35)
      × (client_to_server_fifo_name pid ≢ server_to_client_fifo_name other)
      × (client_to_server_fifo_name pid ≢ server_to_client_fifo_name pid)
      × (client_to_server_fifo_name pid ≢ client_to_server_fifo_name other)
      × (server_to_client_fifo_name pid ≢ server_to_client_fifo_name other)
unfolding client_to_server_fifo_name server_to_client_fifo_name
fifo_names_lem pid other small apart =
    let digits = length-decimal 6 pid small in
    let size = length-append (decimal pid) (codes "_fifo") in
    (
      omega (arith, digits, size),
      omega (arith, digits, size),
      λ e.
          let sixth : ◌≡◌ {A = ℕ} b'c' b's' = ap (λ t. get_or t 5 0) e in
          absurd (omega (arith, sixth)),
      λ e.
          let sixth : ◌≡◌ {A = ℕ} b'c' b's' = ap (λ t. get_or t 5 0) e in
          absurd (omega (arith, sixth)),
      λ e. apart (
          decimal_injective pid other (
            append_cancel_right (decimal pid) (decimal other) (codes "_fifo") (
              append_cancel_left (codes "/tmp/client_to_server_") (decimal pid ++ codes "_fifo")
                (decimal other ++ codes "_fifo") e))),
      λ e. apart (
          decimal_injective pid other (
            append_cancel_right (decimal pid) (decimal other) (codes "_fifo") (
              append_cancel_left (codes "/tmp/server_to_client_") (decimal pid ++ codes "_fifo")
                (decimal other ++ codes "_fifo") e))),
    )
