-- ===== src/Json.antt =====
-- The values of Python's json module, as the store keeps them in its *_json columns. The module
-- itself is not under the repository: a column holds the value that was dumped into it. An object
-- is a dictionary in the order of insertion. A number that the program computes is an `int`; any
-- other number (a score, a multiplier) is its literal.
use agent_eval_orchestrator.Prelude.{
  ℕ, String, ◌≡◌, refl, Bool, Option, none, some, List, [], ◌∷◌, arith, ◌==◌, eq_iff, eq_refl,
  if◌then◌else◌,
}

mutual
  pub data Fields : Type 0 where
    field : (key : String) (value : Value) (rest : Fields) → Fields
    end : Fields

  pub data Value : Type 0 where
    text : String → Value
    int : ℕ → Value
    obj : Fields → Value
    arr : Elements → Value
    boolean : Bool → Value
    literal : String → Value
    null : Value

  pub data Elements : Type 0 where
    element : (first : Value) (rest : Elements) → Elements
    no_more : Elements

-- d.get(k)
unfoldable pub get : String → Fields → Option Value
get k end = none
get k (field j v d) = if j == k then some v else get k d

-- list(d.keys())
unfoldable pub keys : Fields → List String
keys end = []
keys (field k v d) = k ∷ keys d

-- d[k] = v: a key that is there keeps its place.
unfoldable pub put : String → Value → Fields → Fields
put k v end = field k v end
put k v (field j w d) = if j == k then field j v d else field j w (put k v d)

-- d.update(patch)
unfoldable pub update : Fields → Fields → Fields
unfolding put
update end d = d
update (field k v patch) d = update patch (put k v d)

pub get-put :
    (j k : String) (v : Value) (d : Fields)
    → get j (put k v d) ≡ (if k == j then some v else get j d)
unfolding get put
get-put j k v end = refl
get-put j k v (field i w d) =
    ground (arith, eq_iff k j, eq_iff i k, eq_iff i j, eq_refl k, get-put j k v d)

-- `str(d.get(k) or "")` where the value is a text or is not there.
abbrev pub text_of : Option Value → String
text_of (some (text s)) = s
text_of _ = ""

-- The dictionary under a key; anything else is the empty one.
abbrev pub dict_of : Option Value → Fields
dict_of (some (obj d)) = d
dict_of _ = end
