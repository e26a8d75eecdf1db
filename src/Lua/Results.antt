-- ===== src/Lua/Results.antt =====
-- plua.cpp, `Call` behind the arguments: the call of the function and the loop over the results.
use pserver.Prelude.{
  ℕ, suc, ◌+◌, ◌-◌, ◌≡◌, refl, ap, subst, ◌∙◌, inl, inr, Bool, false, ◌||◌, List, [], ◌∷◌, ◌++◌,
  map, append_assoc, Option, none, some, arith, ◌==◌, if◌then◌else◌, ==_refl, Option-cases, length,
  get_elem?, is_none, length-append, ◌>>=◌,
}
use pserver.Lua.{Text}
use pserver.Lua.Call.{Arg, pointer, push_args, Matches, push_args_lem, push_args_separator}

-- What is stored through a pointer of the `va_list`.
pub data Value : Type 0 where
  double integer : ℕ → Value
  text : Text → Value

-- The results of a script as the code looks at them. `pcall` calls a function of a name with arguments
-- for a number of results, and has no results where it raises an error; a number is its pattern.
pub record Script (V W : Type 0) : Type 0 where
  pub is_number : V → Bool
  pub is_string : V → Bool
  pub to_double : V → ℕ
  pub to_int : V → ℕ
  pub to_text : V → Text
  pub pcall : Text → List Arg → ℕ → W → Option (List V) × W

-- What a letter of the format makes of a result.
pub data Want : Type 0 where
  value : Value → Want
  wrong_type invalid_option : Want

-- What was stored where, and how many errors were logged.
pub record Took : Type 0 where
  pub stored : List (ℕ × Value)
  pub errors : ℕ

pub record Called (W : Type 0) : Type 0 where
  pub stored : List (ℕ × Value)
  pub errors : ℕ
  pub world : W

module _ {V W : Type 0} (script : Script V W) where
  -- an index that is not there is of no type
  unfoldable pub want : ℕ → Option V → Want
  want c none = if c == b'd' || c == b'i' || c == b's' then wrong_type else invalid_option
  want c (some v) =
      if c == b'd'
      then (if script.is_number v then value (double (script.to_double v)) else wrong_type)
      else if c == b'i'
      then (if script.is_number v then value (integer (script.to_int v)) else wrong_type)
      else if c == b's'
      then (if script.is_string v then value (text (script.to_text v)) else wrong_type)
      else invalid_option

  -- The second loop, with `nres` at `-n`: a value of the wrong type ends it, and `va_arg` past the last
  -- argument is undefined.
  unfoldable pub take_results : List ℕ → ℕ → List V → List Arg → Option Took
  unfolding want
  take_results [] n stack left = some (record { stored = []; errors = 0 })
  take_results (c ∷ fmt) n stack left = elim (want c (get_elem? stack (length stack - n))) [
    | wrong_type ↦ some (record { stored = []; errors = 1 })
    | invalid_option ↦ do
      t ← take_results fmt (n - 1) stack left
      some (record t { errors = t.errors + 1 })
    | value x ↦ elim left [
      | pointer p ∷ left' ↦ do
        t ← take_results fmt (n - 1) stack left'
        some (record t { stored = (p, x) ∷ t.stored })
      | _ ↦ none
    ]
  ]

  -- `Call`. `lua_pcall` takes `narg` values off the stack and the function below them, so with more than
  -- were pushed there is no function: that is undefined.
  unfoldable pub call : (ℕ → Bool) → Text → List ℕ → List Arg → W → Option (Called W)
  unfolding take_results
  call knows func fmt args w = do
    p ← push_args knows fmt args
    if p.narg == length p.pushed
        then (let (results, w') = script.pcall func p.pushed (length p.rest) w in
            elim results [
              | none ↦ some (record { stored = []; errors = p.errors + 1; world = w' })
              | some vs ↦ do
                t ← take_results p.rest (length p.rest) vs p.left
                some (record { stored = t.stored; errors = p.errors + t.errors; world = w' })
            ])
        else none

  -- A call without results, whose arguments fit the letters of the format and whose objects are of known
  -- types: the function is called once with exactly these arguments, nothing is stored, and the one
  -- error that is logged is that of the function.
  pub call_lem :
      (knows : ℕ → Bool) (func : Text) (fmt : List ℕ) (args left : List Arg) (w : W)
      → Matches knows fmt args
      → call knows func fmt (args ++ left) w ≡ (
          let (results, w') = script.pcall func args 0 w in
          some (record { stored = []; errors = if is_none results then 1 else 0; world = w' }))
  unfolding call take_results
  call_lem knows func fmt args left w m =
      let p = push_args_lem knows fmt args left m in
      elim (Option-cases (script.pcall func args 0 w).0) [
        | inl e ↦ rw (p, ==_refl (length args), e) refl
        | inr (vs, e) ↦ rw (p, ==_refl (length args), e) refl
      ]

  -- A call with results, whose arguments fit: one value too many is counted, so that the call takes what
  -- is below the stack of the function for the function, which is undefined.
  pub call-separator :
      (knows : ℕ → Bool) (func : Text) (fmt res : List ℕ) (args left : List Arg) (w : W)
      → Matches knows fmt args
      → call knows func (fmt ++ b'>' ∷ res) (args ++ left) w ≡ none
  unfolding call
  call-separator knows func fmt res args left w m =
      let more : (length args + 1 == length args) ≡ false = ground arith in
      rw (push_args_separator knows fmt res args left m, more) refl

  -- Each result has the type that its letter wants, and goes through a pointer of its own.
  abbrev pub Takes : List ℕ → List V → List (ℕ × Value) → Type 0
  Takes [] [] [] = Unit {0}
  Takes (c ∷ fmt) (v ∷ vs) ((p, x) ∷ out) = (want c (some v) ≡ value x) × Takes fmt vs out
  Takes _ _ _ = ⊥

  Takes-length :
      (fmt : List ℕ) (vs : List V) (out : List (ℕ × Value))
      → Takes fmt vs out
      → length fmt ≡ length vs
  Takes-length [] [] [] h = refl
  Takes-length (c ∷ fmt) (v ∷ vs) ((p, x) ∷ out) h = ap suc (Takes-length fmt vs out h.1)
  Takes-length [] (v ∷ vs) out h = absurd h
  Takes-length (c ∷ fmt) [] out h = absurd h
  Takes-length [] [] (o ∷ out) h = absurd h
  Takes-length (c ∷ fmt) (v ∷ vs) [] h = absurd h

  get_elem?-behind :
      (below : List V) (v : V) (vs : List V) → get_elem? (below ++ v ∷ vs) (length below) ≡ some v
  get_elem?-behind [] v vs = refl
  get_elem?-behind (b ∷ below) v vs = get_elem?-behind below v vs

  top_lem :
      (below : List V) (v : V) (vs : List V)
      → get_elem? (below ++ v ∷ vs) (length (below ++ v ∷ vs) - length (v ∷ vs)) ≡ some v
  top_lem below v vs =
      let index : length (below ++ v ∷ vs) - length (v ∷ vs) ≡ length below =
        omega (arith, length-append below (v ∷ vs)) in
      ap (get_elem? (below ++ v ∷ vs)) index ∙ get_elem?-behind below v vs

  -- Where every result has the type that its letter wants, the loop over the results stores the values
  -- from the deepest on, each through the next pointer, and logs nothing.
  pub take_results_lem :
      (fmt : List ℕ) (below vs : List V) (out : List (ℕ × Value)) (left : List Arg)
      → Takes fmt vs out
      → take_results fmt (length fmt) (below ++ vs) (map (λ o. pointer o.0) out ++ left)
        ≡ some (record { stored = out; errors = 0 })
  unfolding take_results
  take_results_lem [] below [] [] left h = refl
  take_results_lem (c ∷ fmt) below (v ∷ vs) ((p, x) ∷ out) left (w, h) =
      let stack = below ++ v ∷ vs in
      let rest : take_results fmt (length fmt) stack (map (λ o. pointer o.0) out ++ left)
          ≡ some (record { stored = out; errors = 0 }) =
        subst
          (λ st.
            take_results fmt (length fmt) st (map (λ o. pointer o.0) out ++ left)
            ≡ some (record { stored = out; errors = 0 }))
          (append_assoc below (v ∷ []) vs) (take_results_lem fmt (below ++ v ∷ []) vs out left h) in
      let top =
        ap (λ n. get_elem? stack (length stack - suc n)) (Takes-length fmt vs out h)
        ∙ top_lem below v vs in
      let targets = map (λ o. pointer o.0) out ++ left in
      let back : suc (length fmt) - 1 ≡ length fmt = omega arith in
      let put : Took → Option Took = λ t. some (record t { stored = (p, x) ∷ t.stored }) in
      rw (take_results, top, w)
        (ap (λ n. take_results fmt n stack targets >>= put) back
          ∙ ap (λ (r : Option Took). r >>= put) rest)
  take_results_lem [] below (v ∷ vs) out left h = absurd h
  take_results_lem (c ∷ fmt) below [] out left h = absurd h
  take_results_lem [] below [] (o ∷ out) left h = absurd h
  take_results_lem (c ∷ fmt) below (v ∷ vs) [] left h = absurd h
