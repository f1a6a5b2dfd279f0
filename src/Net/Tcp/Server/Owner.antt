-- ===== src/Net/Tcp/Server/Owner.antt =====
-- ts/net/tcp.ts, `createTcpServer`: who owns the engine.
use toki.Base.{
  ◌++◌, ℕ, zero, suc, ◌+◌, ◌≡◌, refl, Bool, true, false, not, ◌||◌, Option, none, some, List, [],
  ◌∷◌, ◌==◌, get_elem?, if◌then◌else◌, arith,
}
use toki.Net.Tcp.Server.{
  Server, Process, create, on_bound, listen, close, put, Event, creates, listens, closes, listen_on,
  close_on, step, run,
}

-- One for a server that listens.
abbrev pub owns : Server → ℕ
owns s = if s.listen_count == 0 then 0 else 1

abbrev pub owners : List Server → ℕ
owners [] = 0
owners (s ∷ ss) = owns s + owners ss

abbrev pub flag : Bool → ℕ
flag true = 1
flag false = 0

-- The engine is active exactly while one server listens, it is then the only one, and there is a
-- handler exactly then; the io_uring mark is set at most then.
pub record Owned (w : Process) : Type 0 where
  pub one : owners w.servers ≡ flag w.globals.active
  pub handled : (elim w.globals.server_handler [ none ↦ 0 | some i ↦ 1 ]) ≡ flag w.globals.active
  pub uring : (w.globals.active || not w.globals.server_is_uring) ≡ true

owners-put :
    (i : ℕ) (old s : Server) (ss : List Server)
    → get_elem? ss i ≡ some old
    → owners (put i s ss) + owns old ≡ owners ss + owns s
unfolding put
owners-put i old s [] h = ground arith
owners-put zero old s (t ∷ ss) h = ground arith
owners-put (suc i) old s (t ∷ ss) h = ground (arith, owners-put i old s ss)

listen_on-Owned :
    (i : ℕ) (bound : Option ℕ) (o : Option Server) (w : Process)
    → get_elem? w.servers i ≡ o
    → Owned w
    → Owned (listen_on i bound o w)
unfolding listen_on listen on_bound
listen_on-Owned i bound none w here v = v
listen_on-Owned i none (some s) w here v = record {
  one = ground (arith, v.one, owners-put i s s w.servers here);
  handled = ground (arith, v.handled);
  uring = ground (arith, v.uring);
}
listen_on-Owned i (some port) (some s) w here v =
    let more : Server = record s { listen_count = s.listen_count + 1 } in
    record {
      one =
          ground
            (arith, v.one, owners-put i s s w.servers here, owners-put i s more w.servers here);
      handled = ground (arith, v.handled, v.one);
      uring = ground (arith, v.uring);
    }

close_on-Owned :
    (i : ℕ) (o : Option Server) (w : Process)
    → get_elem? w.servers i ≡ o
    → Owned w
    → Owned (close_on i o w)
unfolding close_on close
close_on-Owned i none w here v = v
close_on-Owned i (some s) w here v =
    let off : Server = record s { listen_count = 0 } in
    record {
      one =
          ground (arith, v.one, owners-put i s s w.servers here, owners-put i s off w.servers here);
      handled = ground (arith, v.handled);
      uring = ground (arith, v.uring);
    }

owners-append : (ss ts : List Server) → owners (ss ++ ts) ≡ owners ss + owners ts
owners-append [] ts = omega arith
owners-append (s ∷ ss) ts = omega (arith, owners-append ss ts)

step-Owned : (e : Event) (w : Process) → Owned w → Owned (step e w)
unfolding step create
step-Owned (creates allow_half_open is_uring) w v = record {
  one = omega (arith, v.one, owners-append w.servers (create allow_half_open is_uring ∷ []));
  handled = v.handled;
  uring = v.uring;
}
step-Owned (listens i bound) w v = listen_on-Owned i bound (get_elem? w.servers i) w refl v
step-Owned (closes i) w v = close_on-Owned i (get_elem? w.servers i) w refl v

-- Over any calls of any number of servers, whatever the engine answers: the engine is active exactly
-- while one server listens and no two listen at once, there is a handler exactly then, and the
-- io_uring mark is set at most then.
pub run-Owned : (es : List Event) (w : Process) → Owned w → Owned (run es w)
unfolding run
run-Owned [] w v = v
run-Owned (e ∷ es) w v = run-Owned es (step e w) (step-Owned e w v)
