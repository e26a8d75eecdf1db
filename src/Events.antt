-- ===== src/Events.antt =====
-- event_manager.h and pevent.h: `EventManager`. The map is an association list in the order of its
-- keys. Each operation holds the mutex. A handler is a `boost::function`: `obj_ptr` is the pointer
-- inside by which `Pop` compares.
pub mod Laws
use pserver.Prelude.{
  ℕ, zero, suc, ◌+◌, ◌-◌, ◌*◌, ◌/◌, ◌%◌, ◌^◌, ◌≤◌, ◌<◌, ◌≡◌, refl, sym, ap, subst, ◌∙◌, ◌≢◌, ◌⊎◌,
  inl, inr, Bool, true, false, not, ◌&&◌, ◌||◌, List, [], ◌∷◌, ◌++◌, map, append_assoc, append-nil,
  Option, none, some, arith, leb, ltb, ◌==◌, ==_iff, if◌then◌else◌, Bool-cases, lt→ltb, not-ltb,
  ==_refl, ==_ne, Option-cases, length, get_or, set, count_if, take, drop, replicate, All,
  length-append, length-set, length-take, length-drop, length-replicate, ◌>>=◌, ◌>>◌, Returns,
}

-- `EventType`
pub data EventType : Type 0 where
  eve_test eve_test1 : EventType

abbrev pub order : EventType → ℕ
order eve_test = 0
order eve_test1 = 1

-- `PEvent`, and `PEvent2` with its number
pub data Event : Type 0 where
  plain : EventType → Event
  with_data : EventType → ℕ → Event

abbrev pub type_of : Event → EventType
type_of (plain t) = t
type_of (with_data t n) = t

-- A handler acts on a world; it is not told apart from another with the same object.
pub record Handler (W : Type 0) : Type 0 where
  pub obj_ptr : ℕ
  pub call : Event → W → W

abbrev pub EventMap : Type 0 → Type 0
EventMap W = List (EventType × List (Handler W))

module _ {W : Type 0} where
  -- `GetList`: a null pointer where the type has no entry
  unfoldable pub get_list : EventType → EventMap W → Option (List (Handler W))
  get_list type [] = none
  get_list type ((t, handlers) ∷ m) =
      if order t == order type then some handlers else get_list type m

  -- what `push_back` through that pointer does
  unfoldable pub push_back : EventType → Handler W → EventMap W → EventMap W
  push_back type h [] = []
  push_back type h ((t, handlers) ∷ m) =
      if order t == order type
      then (t, handlers ++ h ∷ []) ∷ m
      else (t, handlers) ∷ push_back type h m

  -- `std::map::insert` of a key that is absent
  unfoldable pub insert_key : EventType → List (Handler W) → EventMap W → EventMap W
  insert_key type handlers [] = (type, handlers) ∷ []
  insert_key type handlers ((t, hs) ∷ m) =
      if ltb (order type) (order t)
      then (type, handlers) ∷ (t, hs) ∷ m
      else (t, hs) ∷ insert_key type handlers m

  unfoldable pub push : EventType → Handler W → EventMap W → EventMap W
  push type h m = elim (get_list type m) [
    | some _ ↦ push_back type h m
    | none ↦ insert_key type (h ∷ []) m
  ]

  -- the loop of `Pop`: after `listIt = erase(listIt)` the `++listIt` passes over the next handler, and
  -- steps past the end where the last one was erased
  unfoldable pub erase_loop : ℕ → List (Handler W) → Option (List (Handler W))
  erase_loop ptr [] = some []
  erase_loop ptr (h ∷ []) = if h.obj_ptr == ptr then none else some (h ∷ [])
  erase_loop ptr (h ∷ next ∷ rest) =
      let skipped = (do kept ← erase_loop ptr rest; some (next ∷ kept)) in
      let onwards = (do kept ← erase_loop ptr (next ∷ rest); some (h ∷ kept)) in
      if h.obj_ptr == ptr then skipped else onwards

  unfoldable pub erase_key : EventType → EventMap W → EventMap W
  erase_key type [] = []
  erase_key type ((t, handlers) ∷ m) =
      if order t == order type then m else (t, handlers) ∷ erase_key type m

  unfoldable pub set_key : EventType → List (Handler W) → EventMap W → EventMap W
  set_key type handlers [] = []
  set_key type handlers ((t, hs) ∷ m) =
      if order t == order type then (t, handlers) ∷ m else (t, hs) ∷ set_key type handlers m

  -- `Pop`: with no handler the whole entry goes
  unfoldable pub pop : EventType → Option (Handler W) → EventMap W → Option (EventMap W)
  pop type fun m = elim (get_list type m) [
    | none ↦ some m
    | some handlers ↦ elim fun [
      | none ↦ some (erase_key type m)
      | some h ↦ do kept ← erase_loop h.obj_ptr handlers; some (set_key type kept m)
    ]
  ]

  unfoldable pub call_all : Event → List (Handler W) → W → W
  call_all e [] w = w
  call_all e (h ∷ hs) w = call_all e hs (h.call e w)

  unfoldable pub launch : Event → EventMap W → W → W
  unfolding call_all
  launch e m w = elim (get_list (type_of e) m) [ none ↦ w | some handlers ↦ call_all e handlers w ]
