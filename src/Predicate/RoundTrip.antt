-- ===== src/Predicate/RoundTrip.antt =====
-- Pointers as RFC 6901 writes them are read back by `_pointer_tokens`.
use codex_monitor.Common.{
  suc, ◌≤◌, ◌≡◌, refl, sym, ap, ◌∙◌, String, true, false, some, List, [], ◌∷◌, eqb, ltb, arith,
  length, map, if◌then◌else◌, Bool-cases, inl, inr, ok,
}
use Prim.Native.Char.{Char, code}
use Prim.Native.String.{len}
use text.Mathlib.TextEquality.{Char-path}
use codex_monitor.Predicate.Pointer.{
  split_slash, unescape, unescape_all, parts_of, pointer_body, pointer_tokens, cons_char,
  max_pointer_bytes, max_pointer_depth,
}

-- `~` is written `~0` and `/` is written `~1`.
unfoldable pub escape : String → String
escape String.[] = ""
escape (String.◌∷◌ c s) =
    let rest = escape s in
    if eqb (code c) 126
    then String.◌∷◌ "~" (String.◌∷◌ "0" rest)
    else if eqb (code c) 47
    then String.◌∷◌ "~" (String.◌∷◌ "1" rest)
    else String.◌∷◌ c rest

same_char : (c d : Char) → eqb (code c) (code d) ≡ true → c ≡ d
same_char c d h = Char-path c d (ground arith)

unescape_plain :
    (c : Char) (s : String)
    → eqb (code c) 126 ≡ false
    → unescape (String.◌∷◌ c s) ≡ cons_char c (unescape s)
unfolding unescape
unescape_plain c String.[] h = rw h refl
unescape_plain c (String.◌∷◌ d s) h = rw h refl

unescape_zero :
    (s : String) → unescape (String.◌∷◌ "~" (String.◌∷◌ "0" s)) ≡ cons_char "~" (unescape s)
unfolding unescape
unescape_zero s = refl

unescape_one :
    (s : String) → unescape (String.◌∷◌ "~" (String.◌∷◌ "1" s)) ≡ cons_char "/" (unescape s)
unfolding unescape
unescape_one s = refl

unescape-escape : (s : String) → unescape (escape s) ≡ some s
unfolding escape
unescape-escape String.[] = unfold unescape in refl
unescape-escape (String.◌∷◌ c s) = elim (Bool-cases (eqb (code c) 126)) [
  | inl t ↦ rw t (
      unescape_zero (escape s)
      ∙ ap (cons_char "~") (unescape-escape s)
      ∙ ap (λ d. some (String.◌∷◌ d s)) (sym (same_char c "~" t)))
  | inr t ↦ elim (Bool-cases (eqb (code c) 47)) [
    | inl k ↦ rw t (
        rw k (
          unescape_one (escape s)
          ∙ ap (cons_char "/") (unescape-escape s)
          ∙ ap (λ d. some (String.◌∷◌ d s)) (sym (same_char c "/" k))))
    | inr k ↦ rw t (rw k (unescape_plain c (escape s) t ∙ ap (cons_char c) (unescape-escape s)))
  ]
]

-- `s + t`
unfoldable pub behind : String → String → String
behind String.[] t = t
behind (String.◌∷◌ c s) t = String.◌∷◌ c (behind s t)

-- The tokens of a pointer, each behind a `/`.
unfoldable pub write_pointer : List String → String
write_pointer [] = ""
write_pointer (t ∷ ts) = String.◌∷◌ "/" (behind (escape t) (write_pointer ts))

split_plain :
    (c : Char) (s : String) {x : String} {xs : List String}
    → eqb (code c) 47 ≡ false
    → split_slash s ≡ x ∷ xs
    → split_slash (String.◌∷◌ c s) ≡ String.◌∷◌ c x ∷ xs
unfolding split_slash
split_plain c s h e = rw h (rw e refl)

-- The escaped text has no `/`, so the split passes over it.
split_behind :
    (s r : String) {x : String} {xs : List String}
    → split_slash r ≡ x ∷ xs
    → split_slash (behind (escape s) r) ≡ behind (escape s) x ∷ xs
unfolding behind escape
split_behind String.[] r h = h
split_behind (String.◌∷◌ c s) r {x} {xs} h = elim (Bool-cases (eqb (code c) 126)) [
  | inl t ↦ rw t (split_plain "~" _ refl (split_plain "0" _ refl (split_behind s r h)))
  | inr t ↦ elim (Bool-cases (eqb (code c) 47)) [
    | inl k ↦ rw t (rw k (split_plain "~" _ refl (split_plain "1" _ refl (split_behind s r h))))
    | inr k ↦ rw t (rw k (split_plain c _ k (split_behind s r h)))
  ]
]

behind_nil : (s : String) → behind s "" ≡ s
unfolding behind
behind_nil String.[] = refl
behind_nil (String.◌∷◌ c s) = ap (String.◌∷◌ c) (behind_nil s)

split_at_slash : (s : String) → split_slash (String.◌∷◌ "/" s) ≡ "" ∷ split_slash s
unfolding split_slash
split_at_slash s = refl

split_empty : split_slash "" ≡ "" ∷ []
unfolding split_slash
split_empty = refl

-- The parts behind the first `/`, where the rest has been split.
split_token :
    (t : String) (ts : List String)
    → split_slash (write_pointer ts) ≡ "" ∷ map escape ts
    → split_slash (behind (escape t) (write_pointer ts)) ≡ map escape (t ∷ ts)
split_token t ts e =
    split_behind t (write_pointer ts) e ∙ ap (λ p. p ∷ map escape ts) (behind_nil (escape t))

split-write_pointer : (ts : List String) → split_slash (write_pointer ts) ≡ "" ∷ map escape ts
unfolding write_pointer
split-write_pointer [] = split_empty
split-write_pointer (t ∷ ts) =
    split_at_slash _ ∙ ap (λ ps. "" ∷ ps) (split_token t ts (split-write_pointer ts))

unescape_all_cons :
    (x : String) (xs : List String) (t : String) (ts : List String)
    → unescape x ≡ some t
    → unescape_all xs ≡ some ts
    → unescape_all (x ∷ xs) ≡ some (t ∷ ts)
unfolding unescape_all
unescape_all_cons x xs t ts h k = ground (arith, h, k)

unescape_all-escape : (ts : List String) → unescape_all (map escape ts) ≡ some ts
unescape_all-escape [] = unfold unescape_all in refl
unescape_all-escape (t ∷ ts) =
    unescape_all_cons (escape t) (map escape ts) t ts (unescape-escape t) (unescape_all-escape ts)

length-escape : (ts : List String) → length (map escape ts) ≡ length ts
length-escape [] = refl
length-escape (t ∷ ts) = ap suc (length-escape ts)

parts_read :
    (parts ts : List String) → parts ≡ map escape ts → length ts ≤ 32 → parts_of parts ≡ ok ts
parts_read parts ts e bound =
    let same = length-escape ts in
    let short : ltb max_pointer_depth (length (map escape ts)) ≡ false = ground arith in
    rw e (rw short (rw (unescape_all-escape ts) refl))

-- Any tokens come back from the pointer that RFC 6901 writes for them, empty tokens and tokens with
-- `/` and `~` included, within the bounds: at most 32 tokens, and at most 1024 bytes of pointer.
pub pointer_tokens-write_pointer :
    (ts : List String)
    → length ts ≤ 32
    → len (write_pointer ts) ≤ 1024
    → pointer_tokens (write_pointer ts) ≡ ok ts
unfolding pointer_tokens write_pointer
pointer_tokens-write_pointer ts depth size =
    let short : ltb max_pointer_bytes (len (write_pointer ts)) ≡ false = ground arith in
    rw short (body ts depth)
  where
    body : (ts : List String) → length ts ≤ 32 → pointer_body (write_pointer ts) ≡ ok ts
    body [] depth = refl
    body (t ∷ ts) depth =
        parts_read (split_slash (behind (escape t) (write_pointer ts))) (t ∷ ts)
          (split_token t ts (split-write_pointer ts)) depth
