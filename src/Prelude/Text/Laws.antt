-- ===== src/Prelude/Text/Laws.antt =====
-- Laws of the text operations: prefixes, and what follows them.
use Prim.Native.Nat.{ℕ, zero, suc, ◌+◌, ◌≤◌, compare as compare_ℕ, Ordering}
use Prim.Native.Char.{Char, code, len_utf8}
use Prim.Native.String.{String, ◌++◌ as ◌<>◌, len, find, begins, same}
use Prim.Native.String.append
use Prim.Native.String.find as find_clauses
use Prim.Native.String.len as len_clauses
use mathlib.Core.Path.{◌≡◌, refl, sym, ap, ◌∙◌, subst}
use mathlib.Core.Bool.{Bool, true, false}
use mathlib.Core.Logic.{inl, inr, ◌≢◌}
use mathlib.Core.Option.{none, some}
use native.Mathlib.Omega.{arith}
use text.Mathlib.Text.{◌==◌, starts_with, when, is_le}
use text.Mathlib.TextEquality.{starts_with_iff}
use text.Mathlib.TextLemmas.{append_assoc}
use text.Mathlib.TextFind.{find_cases}
use text.Mathlib.TextPositions.{
  slice-append_right, len-append, starts_with-append, compare_self, len_utf8-pos,
}
use text.Mathlib.TextEquality.{eq_iff}
use profile_service_cpp.Prelude.Text.{substr, found_at_start, found_from}
use profile_service_cpp.Prelude.Tests.{Bool-cases}

-- The rest of a text behind a prefix.
pub substr-append : (p s : String) → substr (p <> s) (len p) ≡ s
unfolding substr
substr-append p s = rw len-append (slice-append_right p s)

pub starts_with-append_lem : (p s : String) → starts_with (p <> s) p ≡ true
starts_with-append_lem p s = starts_with-append p s

-- A text that starts with `p` is `p` and its rest.
pub eq-append-substr : (t p : String) → starts_with t p ≡ true → t ≡ p <> substr t (len p)
eq-append-substr t p h =
    let (s, e) = (starts_with_iff t p).0 h in
    subst (λ u. u ≡ p <> substr u (len p)) e (ap (λ r. p <> r) (sym (substr-append p s)))

same_self : (n y z : ℕ) → same (compare_ℕ n n) y z ≡ y
same_self n y z = rw (compare_self n)

begins-append : (p s : String) (y n : ℕ) → begins (p <> s) p y n ≡ y
begins-append String.[] s y n = refl
begins-append (String.◌∷◌ c p) s y n =
    rw (append.cons c p s, same_self (code c)) (begins-append p s y n)

find-append : (c : Char) (p s : String) → find (String.◌∷◌ c p <> s) (String.◌∷◌ c p) ≡ 0
find-append c p s =
    rw (append.cons c p s, find_clauses.cons c (p <> s) (String.◌∷◌ c p), same_self (code c))
      (begins-append p s 0 _)

at_start : ℕ → ℕ → Bool
at_start k n = elim (when (is_le (compare_ℕ k n)) k) [
  | none ↦ false
  | some j ↦ elim j [ zero ↦ true | suc i ↦ false ]
]

at_start-zero : (n : ℕ) → at_start 0 n ≡ true
unfolding at_start
at_start-zero n = ground arith

at_start-eq-true : (k n : ℕ) → at_start k n ≡ true → k ≡ 0
unfolding at_start
at_start-eq-true zero n h = refl
at_start-eq-true (suc k) n h = ground arith

found_at_start_lem : (s t : String) → found_at_start s t ≡ at_start (find s t) (len s)
unfolding found_at_start at_start
found_at_start_lem s t = refl

found_at_start-append :
    (c : Char) (p s : String) → found_at_start (String.◌∷◌ c p <> s) (String.◌∷◌ c p) ≡ true
found_at_start-append c p s = rw (found_at_start_lem, find-append c p s) (at_start-zero _)

nil_of_len : (s : String) → len s ≡ 0 → s ≡ String.[]
nil_of_len String.[] h = refl
nil_of_len (String.◌∷◌ c s) h =
    let (k, wide) = len_utf8-pos c in
    let whole : len (String.◌∷◌ c s) ≡ len_utf8 c + len s = len_clauses.cons c s in
    absurd (omega arith)

starts_with_of_find : (s t : String) → find s t ≡ 0 → starts_with s t ≡ true
starts_with_of_find s t h = elim (find_cases s t) [
  | inl (u, v, e, k) ↦
      let nil : u ≡ String.[] = nil_of_len u (sym k ∙ h) in
      let whole : s ≡ t <> v = e ∙ ap (λ w. w <> (t <> v)) nil ∙ append.nil (t <> v) in
      rw whole (starts_with-append t v)
  | inr miss ↦ absurd (omega arith)
]

-- `find(p) == 0` and `rfind(p, 0) == 0` are the same test, for every `p` with a character in it.
pub found_at_start-eq :
    (s : String) (c : Char) (p : String)
    → found_at_start s (String.◌∷◌ c p) ≡ starts_with s (String.◌∷◌ c p)
found_at_start-eq s c p = elim (Bool-cases (starts_with s (String.◌∷◌ c p))) [
  | inl hit ↦
      let e : s ≡ String.◌∷◌ c p <> substr s (len (String.◌∷◌ c p)) = eq-append-substr s _ hit in
      subst (λ u. found_at_start u (String.◌∷◌ c p) ≡ true) (sym e) (found_at_start-append c p _)
      ∙ sym hit
  | inr miss ↦ elim (Bool-cases (found_at_start s (String.◌∷◌ c p))) [
    | inl found ↦
        let zero_at : find s (String.◌∷◌ c p) ≡ 0 =
          at_start-eq-true _ (len s) (sym (found_at_start_lem s _) ∙ found) in
        cc (starts_with_of_find s (String.◌∷◌ c p) zero_at)
    | inr absent ↦ cc
  ]
]

-- The second character of a text tells two prefixes apart.
second_code : String → ℕ
second_code String.[] = 0
second_code (String.◌∷◌ c String.[]) = 0
second_code (String.◌∷◌ c (String.◌∷◌ d s)) = code d

second_code-append :
    (c d : Char) (p s : String) → second_code (String.◌∷◌ c (String.◌∷◌ d p) <> s) ≡ code d
unfolding second_code
second_code-append c d p s = rw (append.cons c (String.◌∷◌ d p) s, append.cons d p s)

second_code_of_starts_with :
    (t : String) (c d : Char) (p : String)
    → starts_with t (String.◌∷◌ c (String.◌∷◌ d p)) ≡ true
    → second_code t ≡ code d
second_code_of_starts_with t c d p h =
    ap second_code (eq-append-substr t _ h) ∙ second_code-append c d p _

pub starts_with-ne :
    (t : String) (c d : Char) (p : String) (c' d' : Char) (p' : String)
    → starts_with t (String.◌∷◌ c (String.◌∷◌ d p)) ≡ true
    → code d ≢ code d'
    → starts_with t (String.◌∷◌ c' (String.◌∷◌ d' p')) ≡ false
starts_with-ne t c d p c' d' p' h apart =
    elim (Bool-cases (starts_with t (String.◌∷◌ c' (String.◌∷◌ d' p')))) [
      | inl also ↦ absurd (
          apart (
            sym (second_code_of_starts_with t c d p h)
            ∙ second_code_of_starts_with t c' d' p' also))
      | inr miss ↦ miss
    ]

same-le : (o : Ordering) (n : ℕ) → same o 0 n ≤ n
same-le Ordering.lt n = omega arith
same-le Ordering.eq n = omega arith
same-le Ordering.gt n = omega arith

find_slash-le : (p s : String) → find (p <> ("/" <> s)) "/" ≤ len p
find_slash-le String.[] s =
    let e : find (String.[] <> ("/" <> s)) "/" ≡ 0 =
      rw (append.nil ("/" <> s)) (find-append "/" "" s) in
    omega arith
find_slash-le (String.◌∷◌ c p) s =
    let step : find (String.◌∷◌ c p <> ("/" <> s)) "/" ≤ len_utf8 c + find (p <> ("/" <> s)) "/" =
      rw (append.cons c p ("/" <> s), find_clauses.cons c (p <> ("/" <> s)) "/")
        (same-le (compare_ℕ (code c) 47) _) in
    let whole : len (String.◌∷◌ c p) ≡ len_utf8 c + len p = len_clauses.cons c p in
    omega (arith, find_slash-le p s)

hit : ℕ → ℕ → Bool
hit k n = elim (when (is_le (compare_ℕ k n)) k) [ none ↦ false | some j ↦ true ]

hit_of_le : (k n : ℕ) → k ≤ n → hit k n ≡ true
unfolding hit
hit_of_le k n h = ground arith

found_from_lem :
    (s t : String) (k : ℕ) → found_from s t k ≡ hit (find (substr s k) t) (len (substr s k))
unfolding found_from hit
found_from_lem s t k = refl

-- A slash behind the first character is found.
pub found_from-slash : (p s : String) → found_from ("/" <> (p <> ("/" <> s))) "/" 1 ≡ true
found_from-slash p s =
    rw (found_from_lem, substr-append "/" (p <> ("/" <> s)))
      (hit_of_le _ _ (omega (arith, find_slash-le p s, len-append p ("/" <> s))))

-- A text that starts with `/p/` has a slash behind its first character.
pub found_from-prefix :
    (p t : String) → starts_with t ("/" <> (p <> "/")) ≡ true → found_from t "/" 1 ≡ true
found_from-prefix p t h =
    let r = substr t (len ("/" <> (p <> "/"))) in
    let e : t ≡ "/" <> (p <> ("/" <> r)) =
      eq-append-substr t _ h
      ∙ append_assoc "/" (p <> "/") r
      ∙ ap (λ u. "/" <> u) (append_assoc p "/" r) in
    rw e (found_from-slash p r)

-- A text that is `u` is no other.
pub is_other : (t u v : String) → (u == v) ≡ false → (t == u) ≡ true → (t == v) ≡ false
is_other t u v ne h = ap (λ w. w == v) ((eq_iff t u).0 h) ∙ ne
