-- ===== src/Relay/Writing.antt =====
-- A file from the bridge's WriteFileHandler to the daemon's disk.
use mathlib.Core.Option.{some-injective}
use agbridge.Prelude.{
  Bool, ℕ, ◌≤◌, ◌≡◌, sym, ◌∙◌, ap, subst, List, [], ◌∷◌, Bytes, bytes_eq, length, none, some, inl,
  inr,
}
use agbridge.Prelude.Maps
use agbridge.Proto.{Frame}
use agbridge.Files.{Files}
use agbridge.Files.Swap.{Holds}
use agbridge.Tools.Payload.{FileWriteRequest}
use agbridge.Tools.Transfer.{
  Pull, System, Returned, answer, context_error, pending, written_complete,
}
use agbridge.Tools.Transfer.Content.{delivered}
use agbridge.Tools.Transfer.Atomic.{Swapped, Works, mode_of, write_file-Swapped, write_file_works}
use agbridge.Client.Files.{file_chunks}
use agbridge.Client.Files.Chunks.{pulls_of, file_chunks-delivered}
use agbridge.Daemon.Handlers.{FileCodec, handle_write, complete_frame, completed, max_file_bytes}

module _ (sha256 : Bytes → Bytes) (fs : Files) (tmp : Bytes) (removes : Bool) (path : Bytes)
    (cap mode : ℕ) where
  swapped-Holds :
      (pulls : List Pull) (b : Bytes) (r : Returned × Files)
      → delivered pulls ≡ some b
      → r.0 ≡ answer (written_complete sha256 b)
      → Swapped sha256 fs tmp removes path cap mode (λ _. Unit {0}) pulls r
      → Holds fs path (record { content = b; mode = mode }) r.1
  swapped-Holds pulls b (answer c, fs') all done (inl (bad, same)) = absurd (bad cc)
  swapped-Holds pulls b (answer c, fs') all done (inr (b', all', _, _, _, holds)) =
      let e : b' ≡ b = some-injective _ _ (sym all' ∙ all) in
      subst (λ (x : Bytes). Holds fs path (record { content = x; mode = mode }) fs') e holds
  swapped-Holds pulls b (context_error, fs') all done h = cc
  swapped-Holds pulls b (pending, fs') all done h = cc

module _ (codec : FileCodec) (sha256 : Bytes → Bytes) (decimal : ℕ → Bytes) (o : System)
    (w : Works o) where
  -- The content of a file that the bridge writes is on the daemon's disk afterwards: where the chunks
  -- that WriteFileHandler sends arrive in order at the handler of the write, the content is within the
  -- daemon's cap and no call of the system fails, the handler answers with one completion without an
  -- error, with the content's size and digest, the path holds exactly the content with the mode
  -- that os.Chmod makes of the requested one, and no other file has changed. The temporary file's name must be new.
  pub handle_write-file_chunks :
      (f : Frame) (req : FileWriteRequest) (b : Bytes) (fs : Files)
      → codec.decode_write f.payload ≡ some req
      → length b ≤ max_file_bytes
      → Maps.get fs o.temp_name ≡ none
      → ((handle_write codec sha256 decimal f o (pulls_of (file_chunks b)) fs).0
          ≡ complete_frame codec f.req_id (written_complete sha256 b) ∷ [])
        × Holds fs req.path
            (record { content = b; mode = mode_of req })
            (handle_write codec sha256 decimal f o (pulls_of (file_chunks b)) fs).1
  unfolding handle_write
  handle_write-file_chunks f req b fs reads fits fresh =
      let all = file_chunks-delivered b in
      let done =
        write_file_works sha256 o req max_file_bytes w (pulls_of (file_chunks b)) fs b all fits in
      let swapped =
        write_file-Swapped sha256 o req max_file_bytes fs fresh (pulls_of (file_chunks b)) in
      rw (handle_write, reads)
        (
          ap (completed codec f.req_id) done,
          swapped-Holds sha256 fs o.temp_name o.removes req.path max_file_bytes (mode_of req)
              (pulls_of (file_chunks b)) b _ all done swapped,
        )
