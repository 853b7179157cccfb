-- ===== src/Transport/Stream.antt =====
-- The stream of bytes that responseBuffer gives in partial reads.
use go_tpm.Base.{
  ℕ, ◌≤◌, ◌≡◌, refl, sym, ap, ◌∙◌, arith, Option, none, some, List, [], ◌∷◌, ◌++◌, length,
  length-take, take_then_drop, take, drop,
}
use mathlib.Core.List.{append_assoc}
use go_tpm.Mu.Bytes.{Bytes}
use go_tpm.Transport.ResponseBuffer.{
  Source, response, failure, ResponseBuffer, Got, read_next, read_from, read_response,
  read_responses,
}

-- The bytes of the responses to come, one response after the other.
abbrev pub to_come : List Source → Bytes
to_come [] = []
to_come (response xs ∷ source) = xs ++ to_come source
to_come (failure e ∷ source) = to_come source

abbrev pub waiting : Option Bytes → Bytes
waiting none = []
waiting (some xs) = xs

abbrev pub stream : ResponseBuffer → Bytes
stream b = waiting b.rsp ++ to_come b.source

-- A read of up to n bytes gives no more, and gives some unless it fails.
abbrev pub Serves : ℕ → Got → Type 0
Serves n g = (length g.0 ≤ n) × (g.1 ≡ none → 1 ≤ n → 1 ≤ length g.0)

abbrev pub all_bytes : List Got → Bytes
all_bytes [] = []
all_bytes (g ∷ gs) = g.0 ++ all_bytes gs

abbrev pub ServesEach : List ℕ → List Got → Type 0
ServesEach [] [] = Unit {0}
ServesEach (n ∷ ns) (g ∷ gs) = Serves n g × ServesEach ns gs
ServesEach _ _ = ⊥

-- A read of n bytes leaves the rest of what was there.
abbrev Reads : ℕ → Bytes → ResponseBuffer × Got → Type 0
Reads n before (b, g) = (g.0 ++ stream b ≡ before) × Serves n g

part_reads :
    (n x : ℕ) (xs : Bytes) (source : List Source)
    → Reads n
        (x ∷ (xs ++ to_come source))
        (record { rsp = some (drop n (x ∷ xs)); source = source }, (take n (x ∷ xs), none))
part_reads n x xs source = (
  sym (append_assoc (take n (x ∷ xs)) (drop n (x ∷ xs)) (to_come source))
      ∙ ap (λ ys. ys ++ to_come source) (take_then_drop n (x ∷ xs)),
  (omega (arith, length-take n (x ∷ xs)), λ e h. omega (arith, length-take n (x ∷ xs))),
)

next_reads : (n : ℕ) (source : List Source) → Reads n (to_come source) (read_next n source)
unfolding read_next
next_reads n [] = (refl, (omega arith, λ e h. cc))
next_reads n (failure e ∷ source) = (refl, (omega arith, λ e h. cc))
next_reads n (response [] ∷ source) = next_reads n source
next_reads n (response (x ∷ xs) ∷ source) = part_reads n x xs source

from_reads :
    (n : ℕ) (rsp : Option Bytes) (source : List Source)
    → Reads n (waiting rsp ++ to_come source) (read_from n rsp source)
from_reads n none source = next_reads n source
from_reads n (some []) source = next_reads n source
from_reads n (some (x ∷ xs)) source = part_reads n x xs source

-- Reads of any sizes give the bytes of the responses in order, and what is left is still there. No
-- read gives more than it asks for, and a read of at least a byte that does not fail gives one.
pub read_responses-stream :
    (b : ResponseBuffer) (ns : List ℕ)
    → (all_bytes (read_responses b ns).1 ++ stream (read_responses b ns).0 ≡ stream b)
      × ServesEach ns (read_responses b ns).1
unfolding read_responses read_response
read_responses-stream b [] = (refl, tt)
read_responses-stream b (n ∷ ns) =
    let (first, serves) = from_reads n b.rsp b.source in
    let (later, serve) = read_responses-stream (read_response b n).0 ns in
    (
      append_assoc (read_response b n).1.0 _ _
          ∙ ap (λ ys. (read_response b n).1.0 ++ ys) later
          ∙ first,
      (serves, serve),
    )
