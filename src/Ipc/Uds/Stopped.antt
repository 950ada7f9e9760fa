-- ===== src/Ipc/Uds/Stopped.antt =====
-- src/file_monitor/ipc/uds.py: what is left when `serve` is over.
use file_monitor.Prelude.{
  ℕ, ◌≡◌, refl, ap, subst, ◌∙◌, Bool, true, false, ◌||◌, Option, none, some, Option-cases, List, [],
  ◌∷◌, arith, if◌then◌else◌, inl, inr,
}
use file_monitor.Python.Text.{Bytes}
use file_monitor.Python.Equality.{nat_eq, ◌==◌}
use file_monitor.Python.Dict.{Dict, get, get-remove}
use file_monitor.Domain.Models.{SenderId}
use file_monitor.Ipc.Codec.{Protobuf}
use file_monitor.Services.Dispatcher.{unknown_sender}
use file_monitor.Ipc.Uds.{
  Connection, UdsIpcServer, init, close, close_at, close_each, keys, stop, send, send_on,
}
use file_monitor.Ipc.Uds.Live.{IsLive, IsValid}
use file_monitor.Ipc.Uds.Kept.{close_each-IsValid}
use file_monitor.Ipc.Uds.Steps.{Event, run, run-IsValid}

abbrev has : ℕ → List ℕ → Bool
has c [] = false
has c (k ∷ ks) = k == c || has c ks

close_at-get :
    (k c : ℕ) (o : Option Connection) (s : UdsIpcServer)
    → get s.connections k ≡ o
    → get (close_at k o s).connections c ≡ (if k == c then none else get s.connections c)
unfolding close
close_at-get k c none s here = ground arith
close_at-get k c (some conn) s here = get-remove s.connections k c

close_each-get :
    (ks : List ℕ) (s : UdsIpcServer) (c : ℕ)
    → get (close_each ks s).connections c ≡ (if has c ks then none else get s.connections c)
close_each-get [] s c = refl
close_each-get (k ∷ ks) s c = ground (
  arith,
  close_each-get ks (close_at k (get s.connections k) s) c,
  close_at-get k c (get s.connections k) s refl,
)

has-keys :
    (d : Dict ℕ Connection) (c : ℕ) (conn : Connection)
    → get d c ≡ some conn
    → has c (keys d) ≡ true
unfolding get
has-keys [] c conn h = absurd (cc)
has-keys ((k, other) ∷ d) c conn h = ground (arith, has-keys d c conn)

no_connection : (s : UdsIpcServer) (c : ℕ) → get (stop s).connections c ≡ none
unfolding stop
no_connection s c = elim (Option-cases (get s.connections c)) [
  | inl gone ↦ close_each-get (keys s.connections) s c ∙ ground arith
  | inr (conn, here) ↦
      close_each-get (keys s.connections) s c ∙ rw (has-keys s.connections c conn here) refl
]

no_peer : (s : UdsIpcServer) (id : SenderId) → IsValid s → get (stop s).peers id ≡ none
unfolding stop
no_peer s id v = elim (Option-cases (get (close_each (keys s.connections) s).peers id)) [
  | inl gone ↦ gone
  | inr (c, here) ↦ absurd (
      subst (IsLive id) (unfold stop in no_connection s c)
        ((close_each-IsValid (keys s.connections) s v).live id c here))
]

-- Whatever has happened to a server: when `serve` is over, no connection is open, and a payload can be
-- sent to no sender.
pub stop_lem :
    (protobuf : Protobuf) (hash : Bytes) (es : List Event) (c : ℕ) (id : SenderId) (payload : Bytes)
    → (let s : UdsIpcServer = stop (run protobuf es (init hash)) in
        (get s.connections c ≡ none) × (send id payload s ≡ (unknown_sender, s)))
unfolding send
stop_lem protobuf hash es c id payload =
    let s = run protobuf es (init hash) in
    (
      no_connection s c,
      ap (λ o. send_on payload o (stop s)) (no_peer s id (run-IsValid protobuf hash es)),
    )
