-- ===== src/Net/Tcp/Socket/AutoEnd.antt =====
-- ts/net/tcp.ts, class `Socket`: the end of the write side after the peer's, and the promise of an
-- upgrade.
use toki.Base.{
  ◌≡◌, true, false, All, Bool-cases, inl, inr, not, ◌||◌, none, some, List, [], ◌∷◌, arith,
}
use toki.Net.Tcp.Socket.{
  Socket, Operation, Listeners, Effect, upgrade_resolved, fire, writes, ends, destroys, upgrades,
  reads_peer, reads_alpn, reads_servername, Event, data_in, drained, peer_ended, secured, closed,
  used, on_backlog, write, write_last, end, destroy, upgrade_tls, operate, operate_all,
  maybe_auto_end, and_then, emit_data, emit_drain, emit_end, settle, emit_secure, emit_close, step,
  run,
}

-- Once the peer has ended, a socket that is not half-open has ended or waits for a drain.
abbrev pub Answered : Socket → Type 0
Answered s = (not s.read_ended || (s.allow_half_open || (s.ended || s.need_drain))) ≡ true

operate-Answered : (o : Operation) (s : Socket) → Answered s → Answered (operate o s).0
unfolding operate write on_backlog write_last end destroy upgrade_tls
operate-Answered (writes bytes backlog) s h = ground arith
operate-Answered (ends none) s h = ground arith
operate-Answered (ends (some (bytes, backlog))) s h = ground arith
operate-Answered destroys s h = ground arith
operate-Answered (upgrades started) s h = ground arith
operate-Answered reads_peer s h = h
operate-Answered reads_alpn s h = h
operate-Answered reads_servername s h = h

operate_all-Answered :
    (os : List Operation) (s : Socket) → Answered s → Answered (operate_all os s).0
unfolding operate_all
operate_all-Answered [] s h = h
operate_all-Answered (o ∷ os) s h = operate_all-Answered os (operate o s).0 (operate-Answered o s h)

maybe_auto_end-Answered : (s : Socket) → Answered (maybe_auto_end s).0
unfolding maybe_auto_end end write_last
maybe_auto_end-Answered s = ground arith

fire-Answered :
    (listeners : Listeners) (s : Socket)
    → listeners.throws ≡ false
    → Answered (fire listeners maybe_auto_end s).0
unfolding fire and_then
fire-Answered listeners s returns = rw returns (maybe_auto_end-Answered _)

-- No listener of the peer's end or of a drain throws.
abbrev pub Returns : Event → Type 0
Returns (drained listeners) = listeners.throws ≡ false
Returns (peer_ended listeners) = listeners.throws ≡ false
Returns (data_in listeners) = Unit
Returns (secured listeners) = Unit
Returns (closed reason listeners) = Unit
Returns (used o) = Unit

settle-Answered : (outcome : Effect) (s : Socket) → Answered s → Answered (settle outcome s).0
unfolding settle
settle-Answered outcome s h = h

secure-Answered :
    (listeners : Listeners) (s : Socket)
    → Answered s
    → Answered (fire listeners (settle upgrade_resolved) s).0
unfolding fire and_then
secure-Answered listeners s h =
    let done = operate_all-Answered listeners.does s h in
    elim (Bool-cases listeners.throws) [
      | inl thrown ↦ rw thrown done
      | inr returns ↦ rw returns (settle-Answered upgrade_resolved _ done)
    ]

step-Answered : (e : Event) (s : Socket) → Returns e → Answered s → Answered (step e s).0
unfolding step emit_data emit_drain emit_end emit_secure emit_close and_then settle
step-Answered (data_in listeners) s r h = operate_all-Answered listeners.does s h
step-Answered (drained listeners) s r h = fire-Answered listeners _ r
step-Answered (peer_ended listeners) s r h = fire-Answered listeners _ r
step-Answered (secured listeners) s r h = secure-Answered listeners _ h
step-Answered (closed reason listeners) s r h = operate_all-Answered listeners.does _ h
step-Answered (used o) s r h = operate-Answered o s h

-- Over any events and whatever the engine answers, where no listener of the peer's end or of a drain
-- throws, though those of other events may: once the peer has ended its side, a socket without
-- `allowHalfOpen` has ended its own or waits for a drain, after which it ends.
pub run-Answered :
    (es : List Event) (s : Socket) → All Returns es → Answered s → Answered (run es s).0
unfolding run and_then
run-Answered [] s r h = h
run-Answered (e ∷ es) s r h = run-Answered es (step e s).0 r.1 (step-Answered e s r.0 h)
