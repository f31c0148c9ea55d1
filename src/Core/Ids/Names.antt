-- ===== src/Core/Ids/Names.antt =====
-- What sanitize_name of core/ids.py gives: the names of directories under the shared root.
use Prim.Native.Char.{code}
use agent_eval_orchestrator.Prelude.{
  ℕ, String, ◌≡◌, refl, ap, ◌∙◌, inl, inr, Bool, true, false, ◌&&◌, [], ◌∷◌, arith, Bool-cases,
  nat_eq, eq_iff, if◌then◌else◌,
}
use agent_eval_orchestrator.Text.{split, is_space, lstrip, rstrip, strip, is_empty}
use agent_eval_orchestrator.Core.Ids.{is_name_char, dash_runs, is_edge, sanitize_name}

abbrev pub all_chars : (ℕ → Bool) → String → Bool
all_chars p String.[] = true
all_chars p (String.◌∷◌ c s) = p (code c) && all_chars p s

-- The tests on the first and on the last character; the empty text has none.
abbrev pub starts : (ℕ → Bool) → String → Bool
starts p String.[] = false
starts p (String.◌∷◌ c s) = p (code c)

abbrev pub ends : (ℕ → Bool) → String → Bool
ends p String.[] = false
ends p (String.◌∷◌ c String.[]) = p (code c)
ends p (String.◌∷◌ c (String.◌∷◌ d s)) = ends p (String.◌∷◌ d s)

abbrev has_first : String → Bool
has_first String.[] = false
has_first (String.◌∷◌ c s) = true

cons-is_empty : (c : _) (s : String) → is_empty (String.◌∷◌ c s) ≡ false
cons-is_empty c s = elim (Bool-cases (is_empty (String.◌∷◌ c s))) [
  | inl e ↦
      let same : String.◌∷◌ c s ≡ "" = ground (arith, e, eq_iff (String.◌∷◌ c s) "") in
      let clash : true ≡ false = ap has_first same in absurd (ground (arith, clash))
  | inr e ↦ e
]

module _ (p q : ℕ → Bool) where
  lstrip-all_chars : (s : String) → all_chars q s ≡ true → all_chars q (lstrip p s) ≡ true
  unfolding lstrip
  lstrip-all_chars String.[] h = refl
  lstrip-all_chars (String.◌∷◌ c s) h = elim (Bool-cases (p (code c))) [
    | inl e ↦ rw e (lstrip-all_chars s (ground arith))
    | inr e ↦ rw e h
  ]

  lstrip-starts : (s : String) → starts p (lstrip p s) ≡ false
  unfolding lstrip
  lstrip-starts String.[] = refl
  lstrip-starts (String.◌∷◌ c s) = elim (Bool-cases (p (code c))) [
    | inl e ↦ rw e (lstrip-starts s)
    | inr e ↦ rw e e
  ]

  lstrip_id : (s : String) → starts p s ≡ false → lstrip p s ≡ s
  unfolding lstrip
  lstrip_id String.[] h = refl
  lstrip_id (String.◌∷◌ c s) h = rw h refl

  rstrip_step :
      (c : _) (s : String)
      → rstrip p (String.◌∷◌ c s)
        ≡ (if is_empty (rstrip p s) && p (code c) then "" else String.◌∷◌ c (rstrip p s))
  unfolding rstrip
  rstrip_step c s = refl

  rest_after :
      (c : _) (r : String)
      → ends p r ≡ false
      → ends p (if is_empty r && p (code c) then "" else String.◌∷◌ c r) ≡ false
  rest_after c String.[] h = elim (Bool-cases (p (code c))) [ inl e ↦ rw e refl | inr e ↦ rw e e ]
  rest_after c (String.◌∷◌ d s) h = rw (cons-is_empty d s) h

  rstrip-ends : (s : String) → ends p (rstrip p s) ≡ false
  unfolding rstrip
  rstrip-ends String.[] = refl
  rstrip-ends (String.◌∷◌ c s) = rest_after c (rstrip p s) (rstrip-ends s)

  all_chars-rest :
      (c : _) (r : String)
      → q (code c) ≡ true
      → all_chars q r ≡ true
      → all_chars q (if is_empty r && p (code c) then "" else String.◌∷◌ c r) ≡ true
  all_chars-rest c r h t = elim (Bool-cases (is_empty r && p (code c))) [
    | inl e ↦ rw e refl
    | inr e ↦ rw e (ground arith)
  ]

  rstrip-all_chars : (s : String) → all_chars q s ≡ true → all_chars q (rstrip p s) ≡ true
  unfolding rstrip
  rstrip-all_chars String.[] h = refl
  rstrip-all_chars (String.◌∷◌ c s) h =
      all_chars-rest c (rstrip p s) (ground arith) (rstrip-all_chars s (ground arith))

  starts-rest :
      (c : _) (r : String)
      → p (code c) ≡ false
      → starts q (if is_empty r && p (code c) then "" else String.◌∷◌ c r) ≡ q (code c)
  starts-rest c r h = elim (Bool-cases (is_empty r)) [ inl e ↦ rw (e, h) refl | inr e ↦ rw e refl ]

  id-rest :
      (c : _) (s : String)
      → ends p (String.◌∷◌ c s) ≡ false
      → (if is_empty s && p (code c) then "" else String.◌∷◌ c s) ≡ String.◌∷◌ c s
  id-rest c String.[] h = rw h refl
  id-rest c (String.◌∷◌ d s) h = rw (cons-is_empty d s) refl

  ends-tail : (c : _) (s : String) → ends p (String.◌∷◌ c s) ≡ false → ends p s ≡ false
  ends-tail c String.[] h = refl
  ends-tail c (String.◌∷◌ d s) h = h

  rstrip_id : (s : String) → ends p s ≡ false → rstrip p s ≡ s
  unfolding rstrip
  rstrip_id String.[] h = refl
  rstrip_id (String.◌∷◌ c s) h = rw (rstrip_id s (ends-tail c s h)) (id-rest c s h)

dash_runs-all_chars : (b : Bool) (s : String) → all_chars is_name_char (dash_runs b s) ≡ true
unfolding dash_runs
dash_runs-all_chars b String.[] = refl
dash_runs-all_chars b (String.◌∷◌ c s) = elim (Bool-cases (is_name_char (code c))) [
  | inl e ↦ rw e (ground (arith, dash_runs-all_chars false s, e))
  | inr e ↦ elim (Bool-cases b) [
    | inl d ↦ rw (e, d) (dash_runs-all_chars true s)
    | inr d ↦ rw (e, d) (dash_runs-all_chars true s)
  ]
]

dash_runs_id : (b : Bool) (s : String) → all_chars is_name_char s ≡ true → dash_runs b s ≡ s
unfolding dash_runs
dash_runs_id b String.[] h = refl
dash_runs_id b (String.◌∷◌ c s) h =
    let e : is_name_char (code c) ≡ true = ground arith in
    rw (e, dash_runs_id false s (ground arith)) refl

name_char-is_space : (c : ℕ) → is_name_char c ≡ true → is_space c ≡ false
unfolding is_name_char is_space
name_char-is_space c h = ground arith

starts-is_space : (s : String) → all_chars is_name_char s ≡ true → starts is_space s ≡ false
starts-is_space String.[] h = refl
starts-is_space (String.◌∷◌ c s) h = name_char-is_space (code c) (ground arith)

ends-is_space : (s : String) → all_chars is_name_char s ≡ true → ends is_space s ≡ false
ends-is_space String.[] h = refl
ends-is_space (String.◌∷◌ c String.[]) h = name_char-is_space (code c) (ground arith)
ends-is_space (String.◌∷◌ c (String.◌∷◌ d s)) h = ends-is_space (String.◌∷◌ d s) (ground arith)

no_slash : (n : ℕ) → is_name_char n ≡ true → nat_eq n b'/' ≡ false
unfolding is_name_char
no_slash n h = ground arith

split-name : (s : String) → all_chars is_name_char s ≡ true → split b'/' s ≡ s ∷ []
unfolding split
split-name String.[] h = refl
split-name (String.◌∷◌ c s) h =
    let e : nat_eq (code c) b'/' ≡ false = no_slash (code c) (ground arith) in
    rw (split-name s (ground arith), e) refl

-- The name of one file: characters of [A-Za-z0-9._-] only, so that it is one component of a path,
-- not empty, and with no character of ".-_" at either end, so neither "." nor "..".
pub record IsFileName (s : String) : Type 0 where
  pub chars : all_chars is_name_char s ≡ true
  pub one_component : split b'/' s ≡ s ∷ []
  pub full : is_empty s ≡ false
  pub first : starts is_edge s ≡ false
  pub last : ends is_edge s ≡ false

rstrip-starts : (p : ℕ → Bool) (s : String) → starts p s ≡ false → starts p (rstrip p s) ≡ false
unfolding rstrip
rstrip-starts p String.[] h = refl
rstrip-starts p (String.◌∷◌ c s) h = starts-rest p p c (rstrip p s) h ∙ h

unknown-IsFileName : IsFileName "unknown"
unfolding is_name_char is_edge split
unknown-IsFileName = record {
  chars = refl;
  one_component = refl;
  full = refl;
  first = refl;
  last = refl;
}

-- Whatever the text, its sanitised form is the name of one file.
pub sanitize_name-IsFileName : (value : String) → IsFileName (sanitize_name value)
unfolding sanitize_name
sanitize_name-IsFileName value =
    let dashed = dash_runs false (strip value) in
    let left = lstrip is_edge dashed in
    let chars =
      rstrip-all_chars is_edge is_name_char left
        (lstrip-all_chars is_edge is_name_char dashed (dash_runs-all_chars false (strip value))) in
    elim (Bool-cases (is_empty (rstrip is_edge left))) [
      | inl e ↦ rw e unknown-IsFileName
      | inr e ↦ rw e (record {
        chars = chars;
        one_component = split-name _ chars;
        full = e;
        first = rstrip-starts is_edge left (lstrip-starts is_edge is_edge dashed);
        last = rstrip-ends is_edge is_edge left;
      })
    ]

-- The name of one file is left as it is.
sanitize_name_id : (s : String) → IsFileName s → sanitize_name s ≡ s
unfolding sanitize_name strip
sanitize_name_id s h =
    rw
      (
        lstrip_id is_space is_space s (starts-is_space s h.chars),
        rstrip_id is_space is_space s (ends-is_space s h.chars),
        dash_runs_id false s h.chars,
        lstrip_id is_edge is_edge s h.first,
        rstrip_id is_edge is_edge s h.last,
        h.full,
      )
      refl
