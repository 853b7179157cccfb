-- ===== src/Commands/Splice.antt =====
-- Parts of the contents of an NV index.
use go_tpm.Base.{
  ℕ, ◌+◌, ◌≤◌, ◌≡◌, refl, sym, ap, ◌∙◌, arith, [], ◌++◌, length, length-append, take, drop,
  drop-append, take-append, take_then_drop, drop_plus, length-take, length-drop,
}
use mathlib.Core.List.{append_assoc}
use go_tpm.Mu.Bytes.{Bytes}

-- The contents zs after the bytes xs have been written at an offset.
abbrev pub splice : ℕ → Bytes → Bytes → Bytes
splice offset xs zs = take offset zs ++ (xs ++ drop (offset + length xs) zs)

pub length-splice :
    (n : ℕ) (xs zs : Bytes) → n + length xs ≤ length zs → length (splice n xs zs) ≡ length zs
length-splice n xs zs h = omega (
  arith,
  length-append (take n zs) (xs ++ drop (n + length xs) zs),
  length-append xs (drop (n + length xs) zs),
  length-take n zs,
  length-drop (n + length xs) zs,
)

take_some : (n : ℕ) (xs : Bytes) → n ≤ length xs → length (take n xs) ≡ n
take_some n xs h = omega (arith, length-take n xs)

pub splice-nil : (n : ℕ) (zs : Bytes) → splice n [] zs ≡ zs
splice-nil n zs =
    let e : n + 0 ≡ n = omega arith in ap (λ k. take n zs ++ drop k zs) e ∙ take_then_drop n zs

-- A second write that begins where the first one ends.
pub splice_twice :
    (n : ℕ) (xs ys zs : Bytes)
    → n + length xs ≤ length zs
    → splice (n + length xs) ys (splice n xs zs) ≡ splice n (xs ++ ys) zs
splice_twice n xs ys zs h =
    let front : Bytes = take n zs ++ xs in
    let back : Bytes = drop (n + length xs) zs in
    let size : n + length xs ≡ length front =
      omega (arith, length-append (take n zs) xs, take_some n zs (omega arith)) in
    let whole : splice n xs zs ≡ front ++ back = sym (append_assoc (take n zs) xs back) in
    let taken : take (n + length xs) (splice n xs zs) ≡ front =
      ap (λ l. take (n + length xs) l) whole
      ∙ ap (λ k. take k (front ++ back)) size
      ∙ take-append front back in
    let left : drop (n + length xs) (splice n xs zs) ≡ back =
      ap (λ l. drop (n + length xs) l) whole
      ∙ ap (λ k. drop k (front ++ back)) size
      ∙ drop-append front back in
    let both : (n + length xs) + length ys ≡ n + length (xs ++ ys) =
      omega (arith, length-append xs ys) in
    rw
      (
        drop_plus (n + length xs) (length ys) (splice n xs zs),
        left,
        taken,
        ← drop_plus (n + length xs) (length ys) zs,
        both,
      )
      (simp append_assoc refl)
