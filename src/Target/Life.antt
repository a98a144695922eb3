-- ===== src/Target/Life.antt =====
-- The life of a target: the loop of `run` in pkg/pgfox/target.go, with what client goroutines do
-- between its rounds, as a relation. `getPool` of pkg/pgfox/server.go registers new pools.
pub mod Budget
use pgfox.Prelude.{
  ℕ, ◌+◌, ◌≤◌, Bool, Option, some, List, [], ◌∷◌, ◌++◌, ◌≡◌, refl, arith, All, length,
}
use pgfox.Prelude.Counting.{count}
use pgfox.Target.State.{Pool, Pooled, Target, pool_at}
use pgfox.Target.Connections.{close_next, borrow_conn, release_conn, give_back}
use pgfox.Target.Growth.{growth_cycle, health_check}
use pgfox.Target.Accounting.{tally, outside, Accounted, Accounted-at, IsEmpty}
use pgfox.Target.Accounting.Operations.{IsFresh, IsHeld}
use pgfox.Target.Accounting.Steps.{
  borrow_conn-Accounted, release_conn-Accounted, give_back-Accounted, close_next-Accounted,
}
use pgfox.Target.Accounting.Reaper.{growth_cycle-Accounted, health_check-Accounted}

-- `PoolRegistered <- pool`
unfoldable pub register_pool : Pool → Target → Target
register_pool p t = record t { registered = t.registered ++ p ∷ [] }

All-last : (p : Pool) (ps : List Pool) → All IsEmpty ps → IsEmpty p → All IsEmpty (ps ++ p ∷ [])
All-last p [] all last = (last, tt)
All-last p (q ∷ ps) all last = (all.0, All-last p ps all.1 last)

register_pool-Accounted :
    (p : Pool) (t : Target) → IsEmpty p → Accounted t → Accounted (register_pool p t)
unfolding register_pool outside
register_pool-Accounted p t empty ok = record {
  pools_ok = ok.pools_ok;
  counted = ok.counted;
  pending = All-last p t.registered ok.pending empty;
  unused = ok.unused;
}

-- What the environment allocates is new.
abbrev pub Allocates : (Target → ℕ → Option ℕ) → Type 0
Allocates new_conn = (t : Target) (i conn : ℕ) → new_conn t i ≡ some conn → IsFresh t i conn

module _ (new_conn : Target → ℕ → Option ℕ) where
  -- The cases of the `select`, and `borrowConn`, `Return`, `Release` and `getPool` of the clients.
  -- As in the code, `Return` and `Release` take any connection, with a client or not.
  pub data Step : Target → Target → Type 0 where
    lend : (t : Target) (i : ℕ) → Step t (borrow_conn i t).1
    take_back : (t : Target) (h : Pooled) → Step t (give_back h t)
    let_go : (t : Target) (h : Pooled) → Step t (release_conn h t)
    close : (t : Target) → Step t (close_next t.close_ch t)
    balance : (t : Target) (now cutoff : ℕ) → Step t (growth_cycle new_conn now cutoff t)
    check :
        (t : Target) (responsive replaced : Bool) (too_old : ℕ → Bool)
        → Step t (health_check responsive replaced too_old t)
    register : (t : Target) (p : Pool) → IsEmpty p → Step t (register_pool p t)

  pub data Reach (t : Target) : Target → Type 0 where
    here : Reach t t
    next : {u v : Target} → Reach t u → Step u v → Reach t v

  -- A client gives a connection back, or releases it, only while it has the connection.
  unfoldable pub OwnsIt : {t u : Target} → Step t u → Type 0
  OwnsIt (lend t i) = Unit
  OwnsIt (take_back t h) = IsHeld h t
  OwnsIt (let_go t h) = IsHeld h t
  OwnsIt (close t) = Unit
  OwnsIt (balance t now cutoff) = Unit
  OwnsIt (check t responsive replaced too_old) = Unit
  OwnsIt (register t p empty) = Unit

  -- Every step of the run keeps to that. `Return` and `Release` do not test it, and not every
  -- caller does: the default branch of `reconcileConn` returns a connection and can leave it pinned
  -- to its client, which makes way for runs that are not disciplined.
  unfoldable pub IsDisciplined : {t u : Target} → Reach t u → Type 0
  IsDisciplined here = Unit
  IsDisciplined (next r s) = IsDisciplined r × OwnsIt s

  module _ (allocates : Allocates new_conn) where
    pub Step-Accounted : {t u : Target} (s : Step t u) → OwnsIt s → Accounted t → Accounted u
    unfolding OwnsIt
    Step-Accounted (lend t i) own ok = borrow_conn-Accounted t i ok
    Step-Accounted (take_back t h) held ok = give_back-Accounted t h ok held
    Step-Accounted (let_go t h) held ok = release_conn-Accounted t h ok held
    Step-Accounted (close t) own ok = close_next-Accounted t t.close_ch refl ok
    Step-Accounted (balance t now cutoff) own ok =
        growth_cycle-Accounted new_conn allocates now cutoff t ok
    Step-Accounted (check t responsive replaced too_old) own ok =
        health_check-Accounted responsive replaced too_old t ok
    Step-Accounted (register t p empty) own ok = register_pool-Accounted p t empty ok

    pub Reach-Accounted :
        {t u : Target} (r : Reach t u) → IsDisciplined r → Accounted t → Accounted u
    unfolding IsDisciplined
    Reach-Accounted here kept ok = ok
    Reach-Accounted (next r s) kept ok = Step-Accounted s kept.1 (Reach-Accounted r kept.0 ok)

    -- Whatever the goroutine of the target and the clients do, in any order, from a state whose
    -- account is in order, as long as a client returns or releases a connection only while it has
    -- it: a connection of a pool is never in two places. It stands at most once in the queue, with
    -- a client and in the close channel together, and exactly as often as in `All`; and
    -- `conn_count`, which the metrics read, is the length of `All`. A connection that is opened is
    -- assumed to be a new one. The code does not test the condition on the clients.
    pub Reach-exclusive :
        (t u : Target) (i c : ℕ) (p : Pool) (r : Reach t u)
        → IsDisciplined r
        → Accounted t
        → pool_at i u.pools ≡ some p
        → (count c p.all ≡ count c p.queue + (tally i c u.borrowed + tally i c u.close_ch))
          × (count c p.queue + (tally i c u.borrowed + tally i c u.close_ch) ≤ 1)
          × (p.conn_count ≡ length p.all)
    unfolding outside
    Reach-exclusive t u i c p r kept ok at =
        let own = Accounted-at u i p (Reach-Accounted r kept ok) at in
        (own.placed c, omega (arith, own.placed c, own.once c), own.mirrored)
