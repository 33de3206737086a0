-- ===== src/Debug/Split.antt =====
-- `split` of libgbc/debug.cpp against a definition that walks the text once.
use gamebro.Base.{
  ℕ, zero, suc, ◌+◌, ◌-◌, ◌<◌, ◌≤◌, ◌≡◌, ◌∙◌, refl, ap, sym, arith, List, [], ◌∷◌, ◌++◌, Option,
  none, some, Bool-cases, true, false, inl, inr, ◌==◌, if◌then◌else◌,
}
use gamebro.Base.{length, take, drop}
use gamebro.Debug.Parse.{Text, index_of, substr, split_loop, split}

abbrev put_first : ℕ → List Text → List Text
put_first c [] = (c ∷ []) ∷ []
put_first c (s ∷ ss) = (c ∷ s) ∷ ss

-- The texts between the occurrences of a character.
abbrev pub pieces : ℕ → Text → List Text
pieces ch [] = [] ∷ []
pieces ch (c ∷ cs) = if c == ch then [] ∷ pieces ch cs else put_first c (pieces ch cs)

abbrev pub join : ℕ → List Text → Text
join ch [] = []
join ch (s ∷ []) = s
join ch (s ∷ t ∷ ss) = s ++ (ch ∷ join ch (t ∷ ss))

-- No text of the list has the character.
abbrev pub Lack : ℕ → List Text → Type 0
Lack ch [] = Unit
Lack ch (s ∷ ss) = (index_of ch s ≡ none) × Lack ch ss

take-length : (n : ℕ) (s : Text) → length s ≤ n → take n s ≡ s
take-length zero [] h = refl
take-length zero (c ∷ cs) h = absurd (omega arith)
take-length (suc n) [] h = refl
take-length (suc n) (c ∷ cs) h = ap (◌∷◌ c) (take-length n cs (omega arith))

length-drop : (n : ℕ) (s : Text) → length (drop n s) ≡ length s - n
length-drop zero s = omega arith
length-drop (suc n) [] = omega arith
length-drop (suc n) (c ∷ cs) = length-drop n cs ∙ omega arith

drop-nil : (n : ℕ) → drop {A = ℕ} n [] ≡ []
drop-nil zero = refl
drop-nil (suc n) = refl

drop-drop : (a b : ℕ) (s : Text) → drop (a + b) s ≡ drop b (drop a s)
drop-drop zero b s = ap (λ n. drop n s) (omega arith)
drop-drop (suc a) b [] = drop-nil (suc a + b) ∙ sym (drop-nil b)
drop-drop (suc a) b (c ∷ cs) = ap (λ n. drop n (c ∷ cs)) (suc_add a b) ∙ drop-drop a b cs
  where
    suc_add : (a b : ℕ) → suc a + b ≡ suc (a + b)
    suc_add a b = omega arith

pieces-none : (ch : ℕ) (s : Text) → index_of ch s ≡ none → pieces ch s ≡ s ∷ []
pieces-none ch [] h = refl
pieces-none ch (c ∷ cs) h = ground (arith, h, pieces-none ch cs)

-- What the first occurrence cuts off.
pieces-some :
    (ch i : ℕ) (s : Text)
    → index_of ch s ≡ some i
    → (pieces ch s ≡ take i s ∷ pieces ch (drop (suc i) s)) × (i < length s)
pieces-some ch i [] h = absurd (ground (arith, h))
pieces-some ch zero (c ∷ cs) h = ground (arith, h)
pieces-some ch (suc i) (c ∷ cs) h = ground (arith, h, pieces-some ch i cs)

-- One round: the text up to the separator, and the rest by `later`.
split_step-pieces :
    (fuel : ℕ) (txt : Text) (ch from : ℕ)
    → length txt - from < suc fuel
    → ((next : ℕ)
        → length txt - next < fuel
        → split_loop fuel txt ch next ≡ pieces ch (drop next txt))
    → split_loop (suc fuel) txt ch from ≡ pieces ch (drop from txt)
unfolding split_loop
split_step-pieces fuel txt ch from h later = go (index_of ch (drop from txt)) refl
  where
    go :
        (o : Option ℕ)
        → index_of ch (drop from txt) ≡ o
        → elim (elim o as (λ r. Option ℕ) [ none ↦ none | some i ↦ some (from + i) ])
            as (λ r. List Text) [
              | none ↦ substr txt from (length txt - from + 1) ∷ []
              | some found ↦ substr txt from (found - from) ∷ split_loop fuel txt ch (found + 1)
            ]
          ≡ pieces ch (drop from txt)
    go none e = rw (pieces-none ch (drop from txt) e) (
        ap (λ s. s ∷ [])
          (take-length (length txt - from + 1) (drop from txt)
            (omega (arith, length-drop from txt))))
    go (some i) e =
        let p : _ = pieces-some ch i (drop from txt) e in
        let i_fits : i < length txt - from = omega (arith, p.1, length-drop from txt) in
        let rest : drop (from + i + 1) txt ≡ drop (suc i) (drop from txt) =
          ap (λ n. drop n txt) (omega arith) ∙ drop-drop from (suc i) txt in
        rw (p.0) (
          ap (λ n. take n (drop from txt) ∷ split_loop fuel txt ch (from + i + 1)) (omega arith)
          ∙ ap (◌∷◌ (take i (drop from txt)))
              (later (from + i + 1) (omega (arith, i_fits, h)) ∙ ap (pieces ch) rest))

split_loop-pieces :
    (fuel : ℕ) (txt : Text) (ch from : ℕ)
    → length txt - from < fuel
    → split_loop fuel txt ch from ≡ pieces ch (drop from txt)
split_loop-pieces zero txt ch from h = absurd (omega arith)
split_loop-pieces (suc fuel) txt ch from h =
    split_step-pieces fuel txt ch from h (λ next k. split_loop-pieces fuel txt ch next k)

-- `split`, which finds each separator and copies the text before it, returns what a single walk over
-- the text collects: its loop ends within one round more than the text has characters.
pub split-pieces : (txt : Text) (ch : ℕ) → split txt ch ≡ pieces ch txt
unfolding split
split-pieces txt ch = split_loop-pieces (suc (length txt)) txt ch 0 (omega arith)

join-put_first : (ch c : ℕ) (ss : List Text) → join ch (put_first c ss) ≡ c ∷ join ch ss
join-put_first ch c [] = refl
join-put_first ch c (s ∷ []) = refl
join-put_first ch c (s ∷ t ∷ ss) = refl

join-empty : (ch : ℕ) (cs : Text) → join ch ([] ∷ pieces ch cs) ≡ ch ∷ join ch (pieces ch cs)
join-empty ch cs = go (pieces ch cs) (pieces-cons cs)
  where
    Full : List Text → Type 0
    Full ss = (s : Text) × (t : List Text) × (ss ≡ s ∷ t)

    put_first-cons : (c : ℕ) (ss : List Text) → Full (put_first c ss)
    put_first-cons c [] = (c ∷ [], [], refl)
    put_first-cons c (s ∷ ss) = (c ∷ s, ss, refl)

    pieces-cons : (cs : Text) → Full (pieces ch cs)
    pieces-cons [] = ([], [], refl)
    pieces-cons (c ∷ cs) = elim (Bool-cases (c == ch)) [
      | inl e ↦ rw e ([], pieces ch cs, refl)
      | inr e ↦ rw e (put_first-cons c (pieces ch cs))
    ]

    go : (ss : List Text) → Full ss → join ch ([] ∷ ss) ≡ ch ∷ join ch ss
    go ss f = rw (f.2) refl

join-pieces : (ch : ℕ) (s : Text) → join ch (pieces ch s) ≡ s
join-pieces ch [] = refl
join-pieces ch (c ∷ cs) = elim (Bool-cases (c == ch)) [
  | inl e ↦
      rw e
        (join-empty ch cs ∙ ap (◌∷◌ ch) (join-pieces ch cs) ∙ ap (λ d. d ∷ cs) (sym (eq_of c ch e)))
  | inr e ↦ rw e (join-put_first ch c (pieces ch cs) ∙ ap (◌∷◌ c) (join-pieces ch cs))
]
  where
    eq_of : (c d : ℕ) → (c == d) ≡ true → c ≡ d
    eq_of c d e = ground (arith, e)

put_first-Lack :
    (ch c : ℕ) (ss : List Text) → (c == ch) ≡ false → Lack ch ss → Lack ch (put_first c ss)
put_first-Lack ch c [] e h = ground (arith, e)
put_first-Lack ch c (s ∷ ss) e h = ground (arith, e, h)

pieces-Lack : (ch : ℕ) (s : Text) → Lack ch (pieces ch s)
pieces-Lack ch [] = (refl, tt)
pieces-Lack ch (c ∷ cs) = elim (Bool-cases (c == ch)) [
  | inl e ↦ rw e (refl, pieces-Lack ch cs)
  | inr e ↦ rw e (put_first-Lack ch c (pieces ch cs) e (pieces-Lack ch cs))
]

-- The texts that `split` returns, joined by the separator, give the text back, and none of them has
-- the separator.
pub join-split : (txt : Text) (ch : ℕ) → (join ch (split txt ch) ≡ txt) × Lack ch (split txt ch)
join-split txt ch = rw (split-pieces txt ch) (join-pieces ch txt, pieces-Lack ch txt)
