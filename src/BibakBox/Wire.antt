-- ===== src/BibakBox/Wire.antt =====
-- Final_HW6: `recv` on a connection, on which client and server send integers as their bytes.
pub mod Receive
use advanced_c_language_proj.Base.{
  ℕ, zero, suc, ◌+◌, ◌-◌, ◌*◌, ◌/◌, ◌%◌, Bool, true, false, List, [], ◌∷◌, ◌++◌, Option, none, some,
  ltb, leb, if◌then◌else◌, length, take, drop,
}
use advanced_c_language_proj.Base.Text.{Text}
use advanced_c_language_proj.Base.Bytes.{value_of}

-- A connection is the pieces in which its bytes come: `recv` takes at most `n` bytes of the first. No
-- bytes mean that the other side has closed the connection.
unfoldable pub recv : ℕ → List Text → Text × List Text
recv n [] = ([], [])
recv n (piece ∷ pieces) =
    (take n piece, if ltb n (length piece) then drop n piece ∷ pieces else pieces)

-- `recv(sock, &value, sizeof(value), 0)`, called once: `memory` is what `value` held before.
unfoldable pub recv_value : ℕ → Text → List Text → ℕ × List Text
recv_value n memory pieces =
    let (got, rest) = recv n pieces in (value_of (got ++ drop (length got) memory), rest)

-- The loop for a file name, `while (bytesLeft > 0)`. There is no name when `recv` gives no bytes: the
-- server exits. `fuel` bounds the number of rounds.
unfoldable pub recv_name : ℕ → ℕ → List Text → Option (Text × List Text)
recv_name zero left pieces = some ([], pieces)
recv_name (suc fuel) left pieces =
    let (got, rest) = recv left pieces in
    let more = recv_name fuel (left - length got) rest in
    if leb left 0 then some ([], pieces) else elim got [
      | [] ↦ none
      | c ∷ s ↦ elim more [ none ↦ none | some (name, behind) ↦ some (c ∷ s ++ name, behind) ]
    ]

-- The number of rounds that a signed integer of the bytes `value` admits, where `half` is the first
-- negative one: a negative number admits none.
unfoldable pub positive_part : ℕ → ℕ → ℕ
positive_part half value = if ltb value half then value else 0
