-- ===== src/Service/Route/Socket.antt =====
-- The interface `SocketRegistry` through which routes reach the Socket.IO bridge: its state and
-- its three operations. What the bridge refuses with is a text.
use arupa.Base.{ℕ, Option, GoString}
use arupa.Base.Result.{Result}
use arupa.Service.Spec.{SocketIoRoute}

pub record SocketRegistry (S : Type 0) : Type 0 where
  pub register : GoString → GoString → SocketIoRoute → Option ℕ → S → Result GoString S
  pub unregister : GoString → GoString → S → S
  pub remove_owner : GoString → S → S
