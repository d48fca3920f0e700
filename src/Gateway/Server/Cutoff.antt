-- ===== src/Gateway/Server/Cutoff.antt =====
-- The deferred `proxy.SetWriter(nil)` of `handleBridge` in internal/gateway/server.go.
use agbridge.Prelude.{ℕ, ◌≡◌, refl, ap, ◌∙◌, Bytes, nat_eq, false, some, arith}
use agbridge.Prelude.Maps
use agbridge.Prelude.Maps.{
  get-put, get-remove, get-put_kept, get-put_other, get-put_self, get-remove_self, get_apart,
}
use agbridge.Proto.{Frame}
use agbridge.Handshake.{Hello}
use agbridge.Gateway.Registry.{ConnId, set_writer}
use agbridge.Gateway.Server.State.{
  daemon_loop, bridge_loop, bridge_unsubscribe, bridge_leave, Gateway,
}
use agbridge.Gateway.Server.Handlers.{received, proceeds, member, deliver}
use agbridge.Gateway.Server.{handler, step, advance}

module _ (sha256 : Bytes → Bytes) (hmac : Bytes → Bytes → Bytes) where
  -- The other connections stay where they stand when the bridge `b` unsubscribes, and the proxy has
  -- no writer then, whoever had installed it.
  unsubscribed :
      (g : Gateway) (b p : ConnId) (h : Hello) (id : ℕ)
      → Maps.get g.handlers b ≡ some (bridge_unsubscribe h id p)
      → step sha256 hmac g (handler b proceeds) ≡ record g {
        writers = Maps.remove g.writers p;
        handlers = Maps.put g.handlers b (bridge_leave h id);
      }
  unfolding step advance set_writer
  unsubscribed g b p h id at = rw at refl

  delivered :
      (g : Gateway) (p : ConnId) (h : Hello) (id : ℕ) (f : Frame)
      → Maps.get g.handlers p ≡ some (daemon_loop h id)
      → member g.closed p ≡ false
      → step sha256 hmac g (handler p (received f)) ≡ deliver g p f (Maps.get g.writers p)
  unfolding step advance
  delivered g p h id f at alive = rw (at, alive) refl

  -- While a bridge `b2` is in its loop on the proxy `p`, another bridge `b` on the same proxy
  -- unsubscribes. Then `b2` is still in its loop, but the next frame that the handler of the open
  -- connection `p` receives from the daemon is sent to nobody.
  pub unsubscribe-cuts_off :
      (g : Gateway) (b b2 p : ConnId) (h h2 hd : Hello) (id id2 idd : ℕ) (f : Frame)
      → Maps.get g.handlers b ≡ some (bridge_unsubscribe h id p)
      → Maps.get g.handlers b2 ≡ some (bridge_loop h2 id2 p)
      → Maps.get g.handlers p ≡ some (daemon_loop hd idd)
      → member g.closed p ≡ false
      → let g1 = step sha256 hmac g (handler b proceeds) in
        let g2 = step sha256 hmac g1 (handler p (received f)) in
        (Maps.get g2.handlers b2 ≡ some (bridge_loop h2 id2 p)) × (g2.sent ≡ g.sent)
  unsubscribe-cuts_off g b b2 p h h2 hd id id2 idd f at at2 atd alive =
      let g1 = record g {
        writers = Maps.remove g.writers p;
        handlers = Maps.put g.handlers b (bridge_leave h id);
      } in
      let e : step sha256 hmac g1 (handler p (received f)) ≡ g1 =
        delivered g1 p hd idd f
          (get-put_other g.handlers b p (bridge_leave h id)
              (get_apart g.handlers b p _ _ at atd (λ e. ground (arith, e)))
            ∙ atd)
          alive
        ∙ ap (deliver g1 p f) (get-remove_self g.writers p) in
      rw (unsubscribed g b p h id at, e)
        (
          get-put_other g.handlers b b2 (bridge_leave h id)
                (get_apart g.handlers b b2 _ _ at at2 (λ e. ground (arith, e)))
              ∙ at2,
          refl,
        )
