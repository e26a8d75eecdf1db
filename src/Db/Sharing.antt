-- ===== src/Db/Sharing.antt =====
-- db.cpp: the pool and the objects that hold its connections. No connection is ever in two hands.
use pserver.Prelude.{
  ℕ, zero, suc, ◌+◌, ◌≤◌, ◌<◌, ◌≡◌, refl, ap, ◌⊎◌, inl, inr, Bool, true, false, List, [], ◌∷◌,
  Option, none, some, arith, ◌==◌, Option-cases, count_if,
}
use pserver.Db.{
  Mysql, Configure, Db, Pool, pop_connection, push_connection, new_db, connect, add_connection,
  take_connection, get_db_connection, release,
}

-- What the users of the pool do: an object takes a connection, or the one at a place goes away.
pub data Op : Type 0 where
  acquire : Op
  dispose : ℕ → Op

abbrev pub stack_of : {W : Type 0} → Pool W → List Db
stack_of p = elim p.pool_data [ none ↦ [] | some d ↦ d.stack ]

-- how often a connection stands in a list
abbrev pub uses : ℕ → List Db → ℕ
uses h dbs = count_if (λ db. db.mysql == h) dbs

abbrev pub nth : List Db → ℕ → Option Db
nth [] i = none
nth (db ∷ dbs) zero = some db
nth (db ∷ dbs) (suc i) = nth dbs i

abbrev pub remove_nth : List Db → ℕ → List Db
remove_nth [] i = []
remove_nth (db ∷ dbs) zero = dbs
remove_nth (db ∷ dbs) (suc i) = db ∷ remove_nth dbs i

abbrev pub and_held : Option Db → List Db → List Db
and_held none held = held
and_held (some db) held = db ∷ held

uses-nth : (h i : ℕ) (dbs : List Db) → uses h (and_held (nth dbs i) (remove_nth dbs i)) ≡ uses h dbs
uses-nth h i [] = refl
uses-nth h zero (db ∷ dbs) = refl
uses-nth h (suc i) (db ∷ dbs) = ground (arith, uses-nth h i dbs)

module _ {W : Type 0} (mysql : Mysql W) where
  unfoldable pub step : Op → Pool W × List Db → Pool W × List Db
  step acquire (p, held) = let (p', db) = get_db_connection mysql none p in (p', and_held db held)
  step (dispose i) (p, held) = (release (nth held i) p, remove_nth held i)

  unfoldable pub run : List Op → Pool W × List Db → Pool W × List Db
  run [] s = s
  run (o ∷ os) s = run os (step o s)

  -- `mysql_init` hands out a new connection each time, and no other call does.
  pub record InitLaws (issued : W → ℕ) : Type 0 where
    pub init_new :
        (w : W) → ((mysql.init w).0 ≡ issued w) × (issued (mysql.init w).1 ≡ issued w + 1)
    pub connect_same :
        (db : Db) (c : Configure) (w : W) → issued (connect mysql db c w).1 ≡ issued w
    pub close_same : (h : ℕ) (w : W) → issued (mysql.close h w) ≡ issued w

  module _ (issued : W → ℕ) (laws : InitLaws issued) where
    -- Each connection is in one place, and those not yet handed out are nowhere.
    pub record IsExclusive (s : Pool W × List Db) : Type 0 where
      pub once : (h : ℕ) → uses h (stack_of s.0) + uses h s.1 ≤ 1
      pub unborn : (h : ℕ) → issued s.0.world ≤ h → uses h (stack_of s.0) + uses h s.1 ≡ 0

    take-uses :
        (h : ℕ) (p : Pool W) (held : List Db)
        → let r = take_connection p in
          (uses h (stack_of r.0) + uses h (and_held r.1 held) ≡ uses h (stack_of p) + uses h held)
          × (r.0.world ≡ p.world)
    unfolding take_connection pop_connection
    take-uses h p held = ground arith

    abbrev one_if : Bool → ℕ
    one_if true = 1
    one_if false = 0

    -- A connection is added, and it is new, or none is.
    abbrev AddsNew : ℕ → Pool W → Pool W → Type 0
    AddsNew h p q =
        (issued p.world ≤ issued q.world)
        × ((uses h (stack_of q) ≡ uses h (stack_of p))
            ⊎ ((uses h (stack_of q) ≡ one_if (issued p.world == h) + uses h (stack_of p))
                × (issued p.world < issued q.world)))

    add-uses : (h : ℕ) (p : Pool W) → AddsNew h p (add_connection mysql p).0
    unfolding add_connection new_db push_connection
    add-uses h p = elim (Option-cases p.pool_data) [
      | inl e ↦ rw (e, add_connection) (ground arith)
      | inr (d, e) ↦
          let db : Db = record { mysql = (mysql.init p.world).0; result = none } in
          let w1 = (mysql.init p.world).1 in
          let w2 = (connect mysql db d.configure w1).1 in
          ground (
            arith,
            laws.init_new p.world,
            laws.connect_same db d.configure w1,
            laws.close_same db.mysql w2,
          )
    ]

    acquire-IsExclusive :
        (p : Pool W) (held : List Db) → IsExclusive (p, held) → IsExclusive (step acquire (p, held))
    unfolding step get_db_connection
    acquire-IsExclusive p held v =
        let p1 = (take_connection p).0 in
        let p2 = (add_connection mysql p1).0 in
        record {
          once = λ h. ground (
            arith,
            v.once h,
            v.unborn h,
            take-uses h p held,
            add-uses h p1,
            take-uses h p2 held,
            ap issued (take-uses h p held).1,
          );
          unborn = λ h le. ground (
            arith,
            v.unborn h,
            take-uses h p held,
            add-uses h p1,
            take-uses h p2 held,
            ap issued (take-uses h p held).1,
            ap issued (take-uses h p2 held).1,
          );
        }

    dispose-IsExclusive :
        (i : ℕ) (p : Pool W) (held : List Db)
        → IsExclusive (p, held)
        → IsExclusive (step (dispose i) (p, held))
    unfolding step release push_connection
    dispose-IsExclusive i p held v = record {
      once = λ h. ground (arith, v.once h, uses-nth h i held);
      unborn = λ h le. ground (arith, v.unborn h, uses-nth h i held);
    }

    run-IsExclusive :
        (os : List Op) (p : Pool W) (held : List Db)
        → IsExclusive (p, held)
        → IsExclusive (run os (p, held))
    unfolding run
    run-IsExclusive [] p held v = v
    run-IsExclusive (acquire ∷ os) p held v =
        run-IsExclusive os (step acquire (p, held)).0 (step acquire (p, held)).1
          (acquire-IsExclusive p held v)
    run-IsExclusive (dispose i ∷ os) p held v =
        run-IsExclusive os (step (dispose i) (p, held)).0 (step (dispose i) (p, held)).1
          (dispose-IsExclusive i p held v)

    -- Where `mysql_init` hands out a new connection each time, from a pool with no connections and
    -- after any sequence of `GetDbConnection` on new objects and of destructors: each connection is
    -- in one place at most, once in the stack or in one object.
    pub run-exclusive :
        (os : List Op) (p : Pool W) (h : ℕ)
        → stack_of p ≡ []
        → let s = run os (p, []) in uses h (stack_of s.0) + uses h s.1 ≤ 1
    run-exclusive os p h e =
        (run-IsExclusive os p []
            (record { once = λ i. rw e (omega arith); unborn = λ i le. rw e (omega arith) })).once
          h
