-- ===== src/Gateway/Registry.antt =====
-- internal/gateway/registry.go. A connection is a number, and so is the proxy of a daemon: the
-- number of its connection. The proxy's writer is the bridge's connection that it sends on.
use agbridge.Prelude.{ℕ, Bytes, bytes_eq, nat_eq, Option, none, some, Result, ok, err}
use agbridge.Prelude.Maps
use agbridge.Prelude.Maps.{Map}

abbrev pub ConnId : Type 0
ConnId = ℕ

pub data Error : Type 0 where
  duplicate : Error

pub record Registry : Type 0 where
  pub daemons : Map Bytes ConnId

-- `_, exists := r.daemons[name]`
abbrev register_absent : Registry → Bytes → ConnId → Option ConnId → Result Error Registry
register_absent r name p (some _) = err duplicate
register_absent r name p none = ok (record r { daemons = Maps.put r.daemons name p })

unfoldable pub register : Registry → Bytes → ConnId → Result Error Registry
register r name p = register_absent r name p (Maps.get r.daemons name)

unfoldable pub unregister : Registry → Bytes → Registry
unregister r name = record r { daemons = Maps.remove r.daemons name }

unfoldable pub lookup : Registry → Bytes → Option ConnId
lookup r name = Maps.get r.daemons name

abbrev pub Writers : Type 0
Writers = Map ConnId ConnId

-- SetWriter, and SetWriter(nil)
unfoldable pub set_writer : Writers → ConnId → Option ConnId → Writers
set_writer ws p (some bridge) = Maps.put ws p bridge
set_writer ws p none = Maps.remove ws p
