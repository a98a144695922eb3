-- ===== src/Session/Pipeline/Forwarding.antt =====
-- What phase 4 of `executeExtendedPipeline` (pkg/pgfox/query.go) sends, and what the client gets
-- for the Parse messages that are left out.
use pgfox.Prelude.{
  ℕ, zero, suc, ◌≤◌, true, List, [], ◌∷◌, ◌++◌, ◌≡◌, refl, sym, arith, length, append-nil,
  append_assoc, Option, none, some, Option-cases, inl, inr, ◌==◌, ◌&&◌, if◌then◌else◌,
}
use pgfox.Prelude.Bytes.{Bytes}
use pgfox.Wire.Frame.{Message}
use pgfox.Access.{any_equal}
use pgfox.Session.State.{World, write_client, has_stmt}
use pgfox.Session.Pipeline.{skip, send, fate, lookup_remapped, parse_complete, forward_pipeline}

-- An account of the loop of its own, for the statements that the connection has at its start.
pub record Split : Type 0 where
  pub sent : List Message
  pub completes : List Message
  pub hashes : List Bytes

-- The statement that a Parse at the index i was rewritten to.
wanted : List (ℕ × Bytes) → ℕ → Message → Option Bytes
wanted [] i m = none
wanted ((j, hash) ∷ rest) i m =
    let later = wanted rest i m in if (j == i) && (m.msg_type == b'P') then some hash else later

pub divide : List (ℕ × Bytes) → List Bytes → ℕ → List Message → Split
divide remapped deployed i [] = record { sent = []; completes = []; hashes = [] }
divide remapped deployed i (m ∷ ms) =
    let rest = divide remapped deployed (suc i) ms in
    elim (wanted remapped i m) [
      | none ↦ record rest { sent = m ∷ rest.sent }
      | some hash ↦
          if any_equal deployed hash
          then record rest { completes = parse_complete ∷ rest.completes }
          else record rest { sent = m ∷ rest.sent; hashes = hash ∷ rest.hashes }
    ]

has_stmt-any_equal :
    (deployed : List Bytes) (hash : Bytes) → has_stmt hash deployed ≡ any_equal deployed hash
unfolding has_stmt any_equal
has_stmt-any_equal [] hash = refl
has_stmt-any_equal (h ∷ hs) hash = ground (arith, has_stmt-any_equal hs hash)

wanted-lookup_remapped :
    (remapped : List (ℕ × Bytes)) (i : ℕ) (m : Message)
    → wanted remapped i m ≡ (if m.msg_type == b'P' then lookup_remapped i remapped else none)
unfolding wanted lookup_remapped
wanted-lookup_remapped [] i m = ground arith
wanted-lookup_remapped ((j, hash) ∷ rest) i m = ground (arith, wanted-lookup_remapped rest i m)

-- What the account says of one message is what the loop does with it.
fate-wanted :
    (remapped : List (ℕ × Bytes)) (deployed : List Bytes) (i : ℕ) (m : Message)
    → fate remapped deployed i m ≡ elim (wanted remapped i m) [
      | none ↦ send none
      | some hash ↦ if any_equal deployed hash then skip else send (some hash)
    ]
unfolding fate
fate-wanted remapped deployed i m =
    let own = wanted-lookup_remapped remapped i m in
    elim (Option-cases (lookup_remapped i remapped)) [
      | inl absent ↦ ground (arith, own, absent)
      | inr (hash, at) ↦ ground (arith, own, at, has_stmt-any_equal deployed hash)
    ]

-- With a Parse of a remapped statement being a Parse message at an index of `remappedParses`, and
-- its hash the one entered there: if the backend takes as many writes as the pipeline has messages, phase 4 sends every message
-- in order but the Parses of remapped statements that the connection already has; for each of
-- those the client gets one ParseComplete; and the hashes of the remapped Parses that were sent
-- are remembered in order. The connection is unchanged. Every write to the client is assumed to
-- succeed.
pub forward_pipeline-divide :
    (remapped : List (ℕ × Bytes)) (writable i : ℕ) (ms : List Message) (w : World)
    → length ms ≤ writable
    → let p = forward_pipeline remapped writable i ms w in
      let d = divide remapped w.conn.deployed_stmts i ms in
      (p.done ≡ true)
      × (p.sent ≡ d.sent)
      × (p.hashes ≡ d.hashes)
      × (p.world.client.out ≡ w.client.out ++ d.completes)
      × (p.world.conn ≡ w.conn)
unfolding forward_pipeline divide write_client
forward_pipeline-divide remapped writable i [] w h =
    (refl, refl, refl, sym (append-nil w.client.out), refl)
forward_pipeline-divide remapped zero i (m ∷ ms) w h = ground arith
forward_pipeline-divide remapped (suc left) i (m ∷ ms) w h =
    let sent = forward_pipeline-divide remapped left (suc i) ms w (omega arith) in
    let skipped =
      forward_pipeline-divide remapped (suc left) (suc i) ms (write_client parse_complete w)
        (omega arith) in
    ground (
      arith,
      fate-wanted remapped w.conn.deployed_stmts i m,
      sent,
      skipped,
      append_assoc w.client.out (parse_complete ∷ [])
          (divide remapped w.conn.deployed_stmts (suc i) ms).completes,
    )
