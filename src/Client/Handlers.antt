-- ===== src/Client/Handlers.antt =====
-- internal/cliclient/handlers_file.go: the two handlers on the router. The texts of errors and the random
-- bytes of a request's id are arguments.
use agbridge.Prelude.{
  ℕ, suc, Bool, List, [], ◌∷◌, Bytes, bytes_eq, nat_eq, codes, ◌==◌, if◌then◌else◌, none, some,
  Result, ok, err,
}
use agbridge.Proto.{Frame}
use agbridge.Proto.FrameType
use agbridge.Errcode
use agbridge.E2e.{Noise}
use agbridge.Tools.Payload.{FileReadRequest}
use agbridge.Client.Router
use agbridge.Client.Router.{Router, send_inner, register_call, unregister_call, new_req_id}
use agbridge.Client.Files.{
  ClientCodec, Event, Outcome, failure, ReadResult, WriteResult, WriteFileArgs, read_loop,
  write_loop, content_of, write_frames,
}

module _ (n : Noise) (hmac : Bytes → Bytes → Bytes) where
  abbrev after :
      Result Router.Error Frame
      → (Router n → Result Router.Error (Unit {0}) × Router n)
      → Router n
      → Result Router.Error (Unit {0}) × Router n
  after (err e) more r = (err e, r)
  after (ok g) more r = more r

  -- The sends of a handler, which gives up at the first that fails. `works` says of each whether the
  -- connection takes it.
  unfoldable pub send_all :
      List Frame → (works : ℕ → Bool) → Router n → Result Router.Error (Unit {0}) × Router n
  send_all [] works r = (ok tt, r)
  send_all (f ∷ fs) works r =
      let (sent, r') = send_inner n hmac r (works 0) f in
      after sent (send_all fs (λ i. works (suc i))) r'

  module _ (codec : ClientCodec) (message : Router.Error → Bytes) (random : Bytes)
      (works : ℕ → Bool) where
    abbrev pub sent_then :
        {R : Type 0}
        → Bytes
        → Outcome R
        → Result Router.Error (Unit {0}) × Router n
        → Outcome R × Router n
    sent_then id out (err e, r) =
        (failure (codes "network_lost") (message e), unregister_call n r id)
    sent_then id none (ok _, r) = (none, r)
    sent_then id (some out) (ok _, r) = (some out, unregister_call n r id)

    abbrev pub read_with :
        Result Bytes FileReadRequest → List Event → Router n → Outcome ReadResult × Router n
    read_with (err e) es r = (failure (codes "bad_payload") e, r)
    read_with (ok req) es r =
        let id = new_req_id random in
        let f : Frame = record {
          type = FrameType.file_read_request;
          req_id = id;
          payload = codec.encode_read req;
        } in
        if req.path == []
        then (failure (codes "bad_payload") (codes "path is required"), r)
        else sent_then id (read_loop codec es []) (send_all (f ∷ []) works (register_call n r id))

    -- ReadFileHandler, for the parsed arguments
    unfoldable pub read_file_handler :
        Result Bytes FileReadRequest → List Event → Router n → Outcome ReadResult × Router n
    read_file_handler args es r = read_with args es r

    abbrev pub write_with :
        Result Errcode.Error (WriteFileArgs × Bytes)
        → List Event
        → Router n
        → Outcome WriteResult × Router n
    write_with (err e) es r = (some (err e), r)
    write_with (ok (args, b)) es r =
        let id = new_req_id random in
        sent_then id (write_loop codec es)
          (send_all (write_frames codec id args b) works (register_call n r id))

    -- WriteFileHandler, for the parsed arguments
    unfoldable pub write_file_handler :
        Result Bytes WriteFileArgs → List Event → Router n → Outcome WriteResult × Router n
    write_file_handler args es r = write_with (content_of codec args) es r
