-- ===== src/Listen/Handlers/Deferred.antt =====
-- Commands of a transaction take effect at its end: what `handleListen` and `handleUnlisten`
-- buffer, `resolvePendingListens` applies or drops (pkg/pgfox/listen_notify.go).
use pgfox.Prelude.{
  ℕ, suc, false, ◌||◌, List, [], ◌∷◌, ◌++◌, length, if◌then◌else◌, ◌==◌, ◌≡◌, refl, sym, ap, ◌∙◌,
  arith, append-nil, append_assoc,
}
use pgfox.Prelude.Bytes.{Bytes, codes}
use pgfox.Listen.Channel.{Channel}
use pgfox.Listen.Registry.{Registry, Opening}
use pgfox.Listen.Client.Names.{equal_fold}
use pgfox.Listen.Client.{
  ListenClient, Handled, ListenKind, PendingListen, listen, unlisten, unlisten_all, Sides,
  buffer_listen, note_subscribed, subscribe, unsubscribe, unsubscribe_all, add_listen_channel,
  remove_listen_channel, clear_listen_channels,
}
use pgfox.Listen.Handlers.{
  in_tx, listen_on, unlisten_on, apply_unlistening, buffer_unlistening, all_channels, one_channel,
  apply_pending, apply_all, resolve_pending_listens,
}

module _ (others : Registry → Registry) where
  -- The handler of one command, with the opening that its LISTEN would meet.
  pub issue : Sides → ListenKind → Channel → Opening → Handled
  issue s listen ch o = listen_on others s ch o
  issue s unlisten ch o = unlisten_on s (one_channel ch)
  issue s unlisten_all ch o = unlisten_on s all_channels

  pub issued : (ℕ → Opening) → Sides → List PendingListen → Sides
  issued opens s [] = s
  issued opens s (a ∷ rest) =
      let d = issue s a.kind a.channel (opens (length rest)) in
      issued opens (d.registry, d.client) rest

  -- The channel that the buffer keeps for a command.
  pub kept : Bytes → ListenKind → Channel → Channel
  kept database unlisten_all ch = record { database = database; name = [] }
  kept database kind ch = ch

  pub entries : Bytes → List PendingListen → List PendingListen
  entries database [] = []
  entries database (a ∷ rest) =
      record { kind = a.kind; channel = kept database a.kind a.channel } ∷ entries database rest

  issue-open :
      (r : Registry) (c : ListenClient) (kind : ListenKind) (ch : Channel) (o : Opening)
      → c.last_tx_status ≡ b'T'
      → let d = issue (r, c) kind ch o in
        (d.registry ≡ r) × (d.client ≡ buffer_listen c kind (kept c.database kind ch))
  unfolding issue kept listen_on unlisten_on buffer_unlistening
  issue-open r c listen ch o e = (ground arith, ground arith)
  issue-open r c unlisten ch o e = (ground arith, ground arith)
  issue-open r c unlisten_all ch o e = (ground arith, ground arith)

  issue-idle :
      (r : Registry) (c : ListenClient) (kind : ListenKind) (ch : Channel) (o : Opening)
      → in_tx c ≡ false
      → let d = issue (r, c) kind ch o in
        ◌≡◌ {A = Sides}
          (d.registry, d.client)
          (apply_pending others (r, c) kind (kept c.database kind ch) o)
  unfolding issue kept listen_on unlisten_on apply_pending apply_unlistening
  issue-idle r c listen ch o e = rw (e, listen_on)
  issue-idle r c unlisten ch o e = rw (e, unlisten_on)
  issue-idle r c unlisten_all ch o e = rw (e, unlisten_on)

  length-entries :
      (database : Bytes) (actions : List PendingListen)
      → length (entries database actions) ≡ length actions
  unfolding entries
  length-entries database [] = refl
  length-entries database (a ∷ rest) = ap suc (length-entries database rest)

  issued-open :
      (actions : List PendingListen) (opens : ℕ → Opening) (r : Registry) (c : ListenClient)
      → c.last_tx_status ≡ b'T'
      → issued opens (r, c) actions
        ≡ (r, record c { pending_listens = c.pending_listens ++ entries c.database actions })
  unfolding issued entries buffer_listen
  issued-open [] opens r c e =
      ap (λ p. (r, record c { pending_listens = p })) (sym (append-nil c.pending_listens))
  issued-open (a ∷ rest) opens r c e =
      let one = issue-open r c a.kind a.channel (opens (length rest)) e in
      let buffered = buffer_listen c a.kind (kept c.database a.kind a.channel) in
      ap (λ s. issued opens s rest) (λ i. (one.0 i, one.1 i))
      ∙ issued-open rest opens r buffered e
      ∙ ap (λ p. (r, record c { pending_listens = p })) (append_assoc c.pending_listens _ _)

  apply_pending-keeps :
      (r : Registry) (c : ListenClient) (kind : ListenKind) (ch : Channel) (o : Opening)
      → let (_, c') = apply_pending others (r, c) kind ch o in
        (c'.last_tx_status ≡ c.last_tx_status) × (c'.database ≡ c.database)
  unfolding apply_pending subscribe unsubscribe unsubscribe_all add_listen_channel
      remove_listen_channel clear_listen_channels note_subscribed
  apply_pending-keeps r c listen ch o = (ground arith, ground arith)
  apply_pending-keeps r c unlisten ch o = (refl, refl)
  apply_pending-keeps r c unlisten_all ch o = (refl, refl)

  issued-idle :
      (actions : List PendingListen) (opens : ℕ → Opening) (r : Registry) (c : ListenClient)
      → in_tx c ≡ false
      → issued opens (r, c) actions ≡ apply_all others opens (r, c) (entries c.database actions)
  unfolding issued entries apply_all
  issued-idle [] opens r c e = refl
  issued-idle (a ∷ rest) opens r c e =
      let ch = kept c.database a.kind a.channel in
      let s = apply_pending others (r, c) a.kind ch (opens (length rest)) in
      let keeps = apply_pending-keeps r c a.kind ch (opens (length rest)) in
      ap (λ q. issued opens q rest) (issue-idle r c a.kind a.channel (opens (length rest)) e)
      ∙ issued-idle rest opens s.0 s.1 (ap (λ t. t == b'T' || t == b'E') keeps.0 ∙ e)
      ∙ ap (λ db. apply_all others opens s (entries db rest)) keeps.1
      ∙ ap
          (λ n.
            apply_all others opens (apply_pending others (r, c) a.kind ch (opens n))
              (entries c.database rest))
          (sym (length-entries c.database rest))

  resolved :
      (opens : ℕ → Opening) (r : Registry) (k : ListenClient) (actions : List PendingListen)
      → resolve_pending_listens others opens (r, record k { pending_listens = actions }) ≡ (
          if equal_fold k.last_command_tag (codes "COMMIT")
          then apply_all others opens (r, record k { pending_listens = [] }) actions
          else (r, record k { pending_listens = [] }))
  unfolding resolve_pending_listens
  resolved opens r k actions = refl

  -- Commands issued in a transaction touch neither the registry nor the client's channels until it
  -- ends. If its last command tag is COMMIT, resolving them then gives the state that the same
  -- commands would have given outside a transaction (for the same openings of connections); if not,
  -- the state before them. Either way the buffer is empty afterwards.
  pub resolve_pending_listens-issued :
      (actions : List PendingListen) (opens : ℕ → Opening) (r : Registry) (c : ListenClient)
      (tag : Bytes)
      → c.last_tx_status ≡ b'T'
      → c.pending_listens ≡ []
      → let (r', c') = issued opens (r, c) actions in
        let ended : ListenClient = record c' { last_tx_status = b'I'; last_command_tag = tag } in
        let idle : ListenClient = record c { last_tx_status = b'I'; last_command_tag = tag } in
        (r' ≡ r)
        × (c'.listen_channels ≡ c.listen_channels)
        × (resolve_pending_listens others opens (r', ended) ≡ (
            if equal_fold tag (codes "COMMIT") then issued opens (r, idle) actions else (r, idle)))
  resolve_pending_listens-issued actions opens r c tag e none_yet =
      let idle : ListenClient = record c { last_tx_status = b'I'; last_command_tag = tag } in
      let es = entries c.database actions in
      let commits = equal_fold tag (codes "COMMIT") in
      let buffered = issued-open actions opens r c e in
      (
        ap (λ s. s.0) buffered,
        ap (λ s. s.1.listen_channels) buffered,
        ap
              (λ s.
                resolve_pending_listens others opens
                  (s.0, record s.1 { last_tx_status = b'I'; last_command_tag = tag }))
              buffered
            ∙ resolved opens r idle (c.pending_listens ++ es)
            ∙ (λ i.
                if commits
                then apply_all others opens (r, record idle { pending_listens = sym none_yet i })
                    (none_yet i ++ es)
                else (r, record idle { pending_listens = sym none_yet i }))
            ∙ ap (λ s. if commits then s else (r, idle))
                (sym (issued-idle actions opens r idle refl)),
      )
