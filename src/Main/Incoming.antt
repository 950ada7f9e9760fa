-- ===== src/Main/Incoming.antt =====
-- src/file_monitor/main.py: what an incoming message does.
use file_monitor.Prelude.{
  ℕ, ◌≡◌, refl, sym, ap, ◌∙◌, some, List, [], ◌∷◌, ◌++◌, arith, ok, err, Error,
}
use mathlib.Core.List.{append-nil}
use file_monitor.Python.Text.{Text, Bytes}
use file_monitor.Python.Equality.{nat_eq, list_eq, list_beq}
use file_monitor.Python.Dict.{get}
use file_monitor.Domain.Models.{SenderId}
use file_monitor.Ipc.Messages.{
  Message, sender_hello, heartbeat, sender_progress, session_complete, local_congestion,
  assign_session, update_rate, abort, foreign,
}
use file_monitor.Ipc.Codec.{Protobuf, encode, decode, decode-encode, field_name_by_message_type}
use file_monitor.Services.Registry.{register, refresh}
use file_monitor.Services.Dispatcher.{State, complete_session}
use file_monitor.Main.{
  Frame, handle_frame, run_incoming_dispatch_loop, incoming_message_handlers, handle_with,
}

encode-named :
    (protobuf : Protobuf) (message : Message) (raw : Bytes)
    → encode protobuf message ≡ ok raw
    → (field_name : Text) × (field_name_by_message_type message ≡ some field_name)
unfolding encode
encode-named protobuf message raw e = ground arith

-- a message with its sender and the time at which it is handled
abbrev pub Letter : Type 0
Letter = SenderId × Message × ℕ

-- The frames are the letters, as `encode` writes them.
abbrev pub AreFrames : Protobuf → List Letter → List Frame → Type 0
AreFrames protobuf [] [] = Unit
AreFrames protobuf [] (f ∷ fs) = ⊥
AreFrames protobuf (l ∷ ls) [] = ⊥
AreFrames protobuf ((sender_id, message, now) ∷ ls) ((sender_id', raw, now') ∷ fs) =
    (sender_id' ≡ sender_id)
    × (now' ≡ now)
    × (encode protobuf message ≡ ok raw)
    × AreFrames protobuf ls fs

module _ (S : Type 0) where
  -- What a message is for.
  abbrev pub effect : (now : ℕ) → SenderId → Message → State S → State S
  effect now sender_id (sender_hello m) s = record s {
    registry = register now sender_id s.registry;
  }
  effect now sender_id (heartbeat m) s = record s { registry = register now sender_id s.registry }
  effect now sender_id (sender_progress m) s = s
  effect now sender_id (session_complete m) s = complete_session m.session_id s
  effect now sender_id (local_congestion m) s = s
  effect now sender_id (assign_session m) s = s
  effect now sender_id (update_rate m) s = s
  effect now sender_id (abort m) s = s
  effect now sender_id (foreign m) s = s

  handled :
      (now : ℕ) (sender_id : SenderId) (message : Message) (s : State S) {field_name : Text}
      → field_name_by_message_type message ≡ some field_name
      → handle_with S (get (incoming_message_handlers S) field_name) now sender_id message s
        ≡ ok (effect now sender_id message s)
  unfolding field_name_by_message_type get list_beq refresh
  handled now sender_id (sender_hello m) s e = ground arith
  handled now sender_id (heartbeat m) s e = ground arith
  handled now sender_id (sender_progress m) s e = ground arith
  handled now sender_id (session_complete m) s e = ground arith
  handled now sender_id (local_congestion m) s e = ground arith
  handled now sender_id (assign_session m) s e = ground arith
  handled now sender_id (update_rate m) s e = ground arith
  handled now sender_id (abort m) s e = ground arith
  handled now sender_id (foreign m) s e = absurd (cc)

  abbrev pub effects : List Letter → State S → State S
  effects [] s = s
  effects ((sender_id, message, now) ∷ letters) s = effects letters (effect now sender_id message s)

  handle_frame-effect :
      (protobuf : Protobuf) (now : ℕ) (sender_id : SenderId) (message : Message) (raw : Bytes)
      → (s : State S) → encode protobuf message ≡ ok raw
      → handle_frame S protobuf (sender_id, raw, now) s ≡ ok (effect now sender_id message s)
  unfolding handle_frame
  handle_frame-effect protobuf now sender_id message raw s e =
      let (field_name, named) = encode-named protobuf message raw e in
      rw (decode-encode protobuf message field_name raw named e)
        (handled now sender_id message s named)

  loop-append :
      (protobuf : Protobuf) (letters : List Letter) (frames rest : List Frame) (s : State S)
      → AreFrames protobuf letters frames
      → run_incoming_dispatch_loop S protobuf (frames ++ rest) s
        ≡ run_incoming_dispatch_loop S protobuf rest (effects letters s)
  unfolding run_incoming_dispatch_loop
  loop-append protobuf [] [] rest s h = refl
  loop-append protobuf [] (f ∷ fs) rest s h = absurd h
  loop-append protobuf (l ∷ ls) [] rest s h = absurd h
  loop-append protobuf ((sender_id, message, now) ∷ ls) ((sender_id', raw, now') ∷ fs) rest s
        (is_sender, is_now, encoded, h) =
      rw
        (
          is_sender,
          is_now,
          handle_frame-effect protobuf now sender_id message raw s encoded,
          run_incoming_dispatch_loop,
        )
        (loop-append protobuf ls fs rest (effect now sender_id message s) h)

-- Messages that are encoded by the codec do, in their order, what they are for: sender_hello and
-- heartbeat enter their sender into the registry at that time, session_complete takes its session out
-- of the dispatched ones, and all others change nothing. The loop does not fail on them. If a frame
-- follows that cannot be decoded, the loop raises the error of the codec, and no message behind that
-- frame is handled.
pub run_incoming_dispatch_loop_lem :
    {S : Type 0} (protobuf : Protobuf) (letters : List Letter) (frames later : List Frame)
    → (s : State S) (sender_id : SenderId) (bad : Bytes) (now : ℕ) (e : Error)
    → AreFrames protobuf letters frames
    → decode protobuf bad ≡ err e
    → (run_incoming_dispatch_loop S protobuf frames s ≡ (ok tt, effects S letters s))
      × (run_incoming_dispatch_loop S protobuf (frames ++ (sender_id, bad, now) ∷ later) s
          ≡ (err e, effects S letters s))
unfolding run_incoming_dispatch_loop handle_frame
run_incoming_dispatch_loop_lem protobuf letters frames later s sender_id bad now e h undecodable = (
  ap (λ fs. run_incoming_dispatch_loop _ protobuf fs s) (sym (append-nil frames))
      ∙ loop-append _ protobuf letters frames [] s h,
  loop-append _ protobuf letters frames ((sender_id, bad, now) ∷ later) s h
      ∙ rw (undecodable, run_incoming_dispatch_loop, handle_frame) refl,
)
