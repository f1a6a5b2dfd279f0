-- ===== src/Net/Tcp/Dispatch/Accounts.antt =====
-- ts/net/tcp.ts: every connect settles once, and every socket opened is closed once.
use toki.Base.{
  ℕ, ◌+◌, ◌≡◌, ◌≢◌, refl, ◌==◌, Option, none, some, List, [], ◌∷◌, ◌++◌, arith, if◌then◌else◌,
  Bool-cases, inl, inr,
}
use toki.NumMap.{get, get-set, get-delete}
use toki.Net.Tcp.Socket
use toki.Net.Tcp.Socket.{
  Socket, Listeners, operate, operate_all, emit_data, emit_drain, emit_end, emit_secure, emit_close,
}
use toki.Net.Tcp.Dispatch.{
  PendingConnect, Engine, connection, received, drain, ended, secure, close, Effect, connecting,
  resolved, accepted, rejected, closed, keep, on_live, on_connection, close_live, on_close,
  dispatch, connect_tcp, Event, native, connects, uses, step, run,
}

-- One where there is a value.
abbrev pub present : {A : Type 0} → Option A → ℕ
present none = 0
present (some a) = 1

abbrev pub match : ℕ → ℕ → ℕ
match i j = if i == j then 1 else 0

-- The weights of the effects added up.
unfoldable pub tally : (Effect → ℕ) → List Effect → ℕ
tally w [] = 0
tally w (e ∷ es) = w e + tally w es

tally-append : (w : Effect → ℕ) (es fs : List Effect) → tally w (es ++ fs) ≡ tally w es + tally w fs
unfolding tally
tally-append w [] fs = omega arith
tally-append w (e ∷ es) fs = omega (arith, tally-append w es fs)

module _ (j : ℕ) where
  -- One for a connect of `j` that begins, one that is resolved or rejected, a socket `j` that is opened
  -- (for a connect or for the server), one that is closed.
  unfoldable pub begun : Effect → ℕ
  begun (connecting i) = match i j
  begun e = 0

  unfoldable pub settled : Effect → ℕ
  settled (resolved i) = match i j
  settled (rejected i r h p) = match i j
  settled e = 0

  unfoldable pub opened : Effect → ℕ
  opened (resolved i) = match i j
  opened (accepted i) = match i j
  opened e = 0

  unfoldable pub ends : Effect → ℕ
  ends (closed i r) = match i j
  ends e = 0

  -- The accounts of a step or a run.
  pub record Accounted (g : Engine) (g' : Engine) (out : List Effect) : Type 0 where
    pub connects :
        tally begun out + present (get j g.pending_connects)
        ≡ tally settled out + present (get j g'.pending_connects)
    pub sockets :
        tally opened out + present (get j g.sockets) ≡ tally ends out + present (get j g'.sockets)

  on_live-Accounted :
      (id : ℕ) (f : Socket → Socket × List Socket.Effect) (o : Option Socket) (g : Engine)
      → get id g.sockets ≡ o
      → let out = on_live id f o g in Accounted g out.0 out.1
  unfolding on_live keep tally begun settled opened ends
  on_live-Accounted id f none g here = record { connects = refl; sockets = refl }
  on_live-Accounted id f (some s) g here = record {
    connects = refl;
    sockets = ground (arith, get-set id j (f s).0 g.sockets, here);
  }

  on_connection-Accounted :
      (id : ℕ) (handler : Listeners) (o : Option PendingConnect) (g : Engine)
      → get id g.pending_connects ≡ o
      → get id g.sockets ≡ none
      → let out = on_connection id handler o g in Accounted g out.0 out.1
  unfolding on_connection tally begun settled opened ends
  on_connection-Accounted id handler (some p) g here new = record {
    connects = ground (arith, get-delete id j g.pending_connects, here);
    sockets = ground (arith, get-set id j (Socket.create p.allow_half_open) g.sockets, new);
  }
  on_connection-Accounted id handler none g here new = elim (Bool-cases g.has_handler) [
    | inl serving ↦
        let s = (operate_all handler.does (Socket.create g.server_half_open)).0 in
        rw serving
          (record { connects = refl; sockets = ground (arith, get-set id j s g.sockets, new) })
    | inr idle ↦ rw idle (record { connects = refl; sockets = refl })
  ]

  close_live-Accounted :
      (id code : ℕ) (listeners : Listeners) (o : Option Socket) (g : Engine)
      → get id g.sockets ≡ o
      → let out = close_live id code listeners o g in Accounted g out.0 out.1
  unfolding close_live tally begun settled opened ends
  close_live-Accounted id code listeners none g here = record { connects = refl; sockets = refl }
  close_live-Accounted id code listeners (some s) g here = record {
    connects = refl;
    sockets = ground (arith, get-delete id j g.sockets, here);
  }

  on_close-Accounted :
      (id code : ℕ) (listeners : Listeners) (o : Option PendingConnect) (g : Engine)
      → get id g.pending_connects ≡ o
      → let out = on_close id code listeners o g in Accounted g out.0 out.1
  unfolding on_close tally begun settled opened ends
  on_close-Accounted id code listeners (some p) g here = record {
    connects = ground (arith, get-delete id j g.pending_connects, here);
    sockets = refl;
  }
  on_close-Accounted id code listeners none g here =
      close_live-Accounted id code listeners (get id g.sockets) g refl

  connect_tcp-Accounted :
      (id : ℕ) (p : PendingConnect) (g : Engine)
      → j ≢ 0
      → get id g.pending_connects ≡ none
      → let out = connect_tcp id p g in Accounted g out.0 out.1
  unfolding connect_tcp tally begun settled opened ends
  connect_tcp-Accounted id p g positive new = elim (Bool-cases g.server_is_uring) [
    | inl uring ↦ rw uring (record { connects = refl; sockets = refl })
    | inr libuv ↦ elim (Bool-cases (id == 0)) [
      | inl failed ↦ rw (libuv, failed) (record { connects = ground arith; sockets = refl })
      | inr taken ↦
          rw (libuv, taken)
            (record {
              connects = ground (arith, get-set id j p g.pending_connects, new);
              sockets = refl;
            })
    ]
  ]

-- The engine gives a new connect no number of a connect in progress, and a new connection none of a
-- live socket.
abbrev pub FreshEvent : Event → Engine → Type 0
FreshEvent (native id connection listeners) g = get id g.sockets ≡ none
FreshEvent (connects id p) g = get id g.pending_connects ≡ none
FreshEvent e g = Unit

abbrev pub Fresh : List Event → Engine → Type 0
Fresh [] g = Unit
Fresh (e ∷ es) g = FreshEvent e g × Fresh es (step e g).0

module _ (j : ℕ) where
  step-Accounted :
      (e : Event) (g : Engine) → j ≢ 0 → FreshEvent e g → Accounted j g (step e g).0 (step e g).1
  unfolding step dispatch
  step-Accounted (native id connection listeners) g positive fresh =
      on_connection-Accounted j id listeners (get id g.pending_connects) g refl fresh
  step-Accounted (native id received listeners) g positive fresh =
      on_live-Accounted j id (emit_data listeners) (get id g.sockets) g refl
  step-Accounted (native id drain listeners) g positive fresh =
      on_live-Accounted j id (emit_drain listeners) (get id g.sockets) g refl
  step-Accounted (native id ended listeners) g positive fresh =
      on_live-Accounted j id (emit_end listeners) (get id g.sockets) g refl
  step-Accounted (native id secure listeners) g positive fresh =
      on_live-Accounted j id (emit_secure listeners) (get id g.sockets) g refl
  step-Accounted (native id (close code) listeners) g positive fresh =
      on_close-Accounted j id code listeners (get id g.pending_connects) g refl
  step-Accounted (connects id p) g positive fresh = connect_tcp-Accounted j id p g positive fresh
  step-Accounted (uses id o) g positive fresh =
      on_live-Accounted j id (operate o) (get id g.sockets) g refl

  -- Over any events, where the engine reuses no number in use: for every number but 0, the connects
  -- that began, with one in progress before, are as many as those that resolved or rejected, with one
  -- in progress after; and the sockets opened, with one live before, are as many as those closed,
  -- with one live after.
  pub run-Accounted :
      (es : List Event) (g : Engine) → j ≢ 0 → Fresh es g → Accounted j g (run es g).0 (run es g).1
  unfolding run tally begun settled opened ends
  run-Accounted [] g positive fresh = record { connects = refl; sockets = refl }
  run-Accounted (e ∷ es) g positive fresh =
      let (g', out) = step e g in
      let first = step-Accounted e g positive fresh.0 in
      let rest = run-Accounted es g' positive fresh.1 in
      let more = (run es g').1 in
      record {
        connects = omega (
          arith,
          first.connects,
          rest.connects,
          tally-append (begun j) out more,
          tally-append (settled j) out more,
        );
        sockets = omega (
          arith,
          first.sockets,
          rest.sockets,
          tally-append (opened j) out more,
          tally-append (ends j) out more,
        );
      }
