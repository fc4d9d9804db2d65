-- ===== src/Bibo/Tests.antt =====
-- Midterm_HW3/biboServer.c at concrete inputs.
use advanced_c_language_proj.Base.{
  ℕ, ◌+◌, ◌≡◌, refl, inl, true, false, List, [], ◌∷◌, ◌++◌, none, some, ◌==◌, leb, if◌then◌else◌,
  arith, length, get_or, replicate, length-replicate,
}
use advanced_c_language_proj.Base.Int.{pos}
use advanced_c_language_proj.Base.Text.{Text, codes, c_string, decimal}
use advanced_c_language_proj.Bibo.Queue.{
  Queue, max_size, is_empty, is_full, enqueue, dequeue, store,
}
use advanced_c_language_proj.Bibo.Queue.Fifo.{IsValid, contents, first, rest, dequeue_lem}
use advanced_c_language_proj.Bibo.Slots.{add_client}
use advanced_c_language_proj.Bibo.Server.{
  Server, Run, begin, after, init, accept, receive, start_load, start_store, quit,
}
use advanced_c_language_proj.Bibo.Server.Waiting.{waiting_starves}
use advanced_c_language_proj.Bibo.ReadFile.{pieces, line_response, parse_read}
use advanced_c_language_proj.Bibo.ReadFile.Lines.{line_response_lem}
use advanced_c_language_proj.Bibo.Requests.{Outside}

-- The array as `main` may find it.
items : List ℕ
items = replicate 1024 0

length-items : length items ≡ max_size
unfolding items
length-items = length-replicate {A = ℕ} 1024 0

-- The last two places hold clients.
abbrev late : Queue
late = record { items = items; front = pos 1022; rear = pos 1023 }

late-IsValid : IsValid late
late-IsValid = record { storage = length-items; spans = omega arith }

dequeue_lem_example :
    ((dequeue late).0 ≡ first (contents late))
    × (contents (dequeue late).1 ≡ rest (contents late))
    × IsValid (dequeue late).1
dequeue_lem_example = dequeue_lem late late-IsValid

-- One slot: client 5 connects, client 6 waits, and the child of client 5 starts.
busy :
    (s : Server) × Run true (init items 1) s
    × (is_empty s.queue ≡ false)
    × ((s.forked ≡ []) × (s.starting ≡ []))
unfolding init accept is_empty add_client enqueue is_full store
busy =
    let r₁ : Run true (init items 1) _ = after begin (receive 5 0 (omega arith) (inl refl)) in
    let r₂ : Run true (init items 1) _ = after r₁ (receive 6 1 (omega arith) (inl refl)) in
    let r₃ : Run true (init items 1) _ = after r₂ (start_load 5 [] [] refl (λ h. refl)) in
    let r₄ : Run true (init items 1) _ = after r₃ (start_store 5 (pos 1) [] [] refl) in
    (_, r₄, refl, (refl, refl))

-- Then client 5 quits.
quiet : (u : Server) × Run true busy.0 u
unfolding busy
quiet = (_, after begin (quit 5 [] [] refl))

waiting_starves_example : (more : List ℕ) × (contents quiet.0.queue ≡ contents busy.0.queue ++ more)
waiting_starves_example = waiting_starves items 1 length-items busy.1 busy.2 busy.3 quiet.1

abbrev two_forked : Server
two_forked = record {
  queue = late;
  slots = 5 ∷ 6 ∷ [];
  empty_slot_count = pos 2;
  notified = [];
  forked = 6 ∷ 5 ∷ [];
  starting = [];
  serving = [];
  started = 0;
}

abbrev two_lines : Text
two_lines = codes "ab\ncd"

line_response_lem_example : line_response 3 two_lines ≡ (
    if leb 3 (length (pieces two_lines))
    then codes "Line " ++ (decimal 3 ++ (codes ": " ++ c_string (get_or (pieces two_lines) 2 [])))
    else (if 3 == length (pieces two_lines) + 1
        then []
        else codes "The file has only "
          ++ (decimal (length (pieces two_lines)) ++ codes " lines.\n")))
line_response_lem_example = line_response_lem 3 two_lines (omega arith)

-- One line past the end of the file the answer is empty.
line_3_of_2 : line_response 3 two_lines ≡ []
unfolding line_response pieces
line_3_of_2 = refl

line_4_of_2 : line_response 4 two_lines ≡ codes "The file has only 2 lines.\n"
unfolding line_response pieces decimal
line_4_of_2 = refl

-- Nothing opens.
abbrev outside : Outside
outside = record { text = λ c. []; ls = []; open_file = λ name. none }

parse_read_runs : parse_read (codes "readF notes.txt 12\n") ≡ some (codes "notes.txt", pos 12)
unfolding parse_read
parse_read_runs = refl
