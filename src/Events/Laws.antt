-- ===== src/Events/Laws.antt =====
-- event_manager.h: what registered handlers see, and what `Pop` takes out.
use pserver.Prelude.{
  ℕ, ◌≡◌, refl, sym, ap, ◌∙◌, ◌≢◌, inl, inr, List, [], ◌∷◌, ◌++◌, append_assoc, append-nil, Option,
  none, some, arith, ◌==◌, if◌then◌else◌, Option-cases,
}
use pserver.Events.{
  EventType, order, Event, type_of, Handler, EventMap, get_list, push_back, insert_key, push,
  call_all, launch,
}

module _ {W : Type 0} where
  -- What a type has, with no entry read as no handler.
  abbrev listed : Option (List (Handler W)) → List (Handler W)
  listed none = []
  listed (some handlers) = handlers

  abbrev pub registered : EventType → EventMap W → List (Handler W)
  registered type m = listed (get_list type m)

  get_list_congr :
      (type t : EventType) (m : EventMap W) → order type ≡ order t → get_list type m ≡ get_list t m
  unfolding get_list
  get_list_congr type t [] e = refl
  get_list_congr type t ((u, hs) ∷ m) e = ground (arith, get_list_congr type t m)

  get_list-push_back :
      (type t : EventType) (h : Handler W) (m : EventMap W) (old : List (Handler W))
      → get_list type m ≡ some old
      → get_list t (push_back type h m)
        ≡ (if order type == order t then some (old ++ h ∷ []) else get_list t m)
  unfolding get_list push_back
  get_list-push_back type t h [] old e = cc
  get_list-push_back type t h ((u, hs) ∷ m) old e =
      ground (arith, get_list-push_back type t h m old)

  get_list-insert_key :
      (type t : EventType) (hs : List (Handler W)) (m : EventMap W)
      → get_list type m ≡ none
      → get_list t (insert_key type hs m)
        ≡ (if order type == order t then some hs else get_list t m)
  unfolding get_list insert_key
  get_list-insert_key type t hs [] e = ground arith
  get_list-insert_key type t hs ((u, old) ∷ m) e = ground (arith, get_list-insert_key type t hs m)

  -- `Push` puts the handler behind those of its type, and leaves the other types alone.
  pub registered-push :
      (type t : EventType) (h : Handler W) (m : EventMap W)
      → registered t (push type h m)
        ≡ (if order type == order t then registered type m ++ h ∷ [] else registered t m)
  unfolding push
  registered-push type t h m = elim (Option-cases (get_list type m)) [
    | inr (old, e) ↦ rw (e, push) (ground (arith, get_list-push_back type t h m old e))
    | inl e ↦ rw (e, push) (ground (arith, get_list-insert_key type t (h ∷ []) m e))
  ]

  pub push_all : List (EventType × Handler W) → EventMap W → EventMap W
  push_all [] m = m
  push_all ((type, h) ∷ rest) m = push_all rest (push type h m)

  -- the handlers of one type among those that were registered
  pub of_type : EventType → List (EventType × Handler W) → List (Handler W)
  of_type t [] = []
  of_type t ((type, h) ∷ rest) =
      if order type == order t then h ∷ of_type t rest else of_type t rest

  registered-push_all :
      (t : EventType) (hs : List (EventType × Handler W)) (m : EventMap W)
      → registered t (push_all hs m) ≡ registered t m ++ of_type t hs
  unfolding push_all of_type
  registered-push_all t [] m = sym (append-nil _)
  registered-push_all t ((type, h) ∷ rest) m =
      rw (registered-push_all t rest (push type h m), registered-push type t h m)
        (ground
          (arith, get_list_congr type t m, append_assoc (registered t m) (h ∷ []) (of_type t rest)))

  launch-registered :
      (e : Event) (m : EventMap W) (w : W) → launch e m w ≡ call_all e (registered (type_of e) m) w
  unfolding launch call_all
  launch-registered e m w = ground arith

  -- An event reaches exactly the handlers registered for its type, each once for each `Push`, in the
  -- order of the calls.
  pub launch-push_all :
      (e : Event) (hs : List (EventType × Handler W)) (w : W)
      → launch e (push_all hs []) w ≡ call_all e (of_type (type_of e) hs) w
  unfolding get_list
  launch-push_all e hs w =
      launch-registered e (push_all hs []) w
      ∙ ap (λ l. call_all e l w) (registered-push_all (type_of e) hs [] ∙ refl)

  -- the handlers with another object
  pub others : ℕ → List (Handler W) → List (Handler W)
  others ptr [] = []
  others ptr (h ∷ hs) = if h.obj_ptr == ptr then others ptr hs else h ∷ others ptr hs

  -- No handler of the object is followed by another one of it, and none stands last.
  abbrev pub IsApart : ℕ → List (Handler W) → Type 0
  IsApart ptr [] = Unit {0}
  IsApart ptr (h ∷ []) = h.obj_ptr ≢ ptr
  IsApart ptr (h ∷ next ∷ rest) = (h.obj_ptr ≡ ptr → next.obj_ptr ≢ ptr) × IsApart ptr (next ∷ rest)
