-- ===== src/Http.antt =====
-- http/http.go: the services behind the HTTP server and their shutdown.
use meeseeks_box.Base.{◌≡◌, refl, List, [], ◌∷◌, ◌++◌, Result, ok, err, Bool, true, false}

-- A service by what its Shutdown returns, with the state that it leaves.
module _ (S : Type 0) where
  abbrev pub Service : Type 0
  Service = S → Result (Unit {0}) × S

  pub record Server : Type 0 where
    pub services : List Service

  -- New, and Register
  abbrev pub new : Server
  new = record { services = [] }

  unfoldable pub register : Service → Server → Server
  register service s = record s { services = s.services ++ service ∷ [] }

  -- What Shutdown returns, whether the server itself was shut down, and the state.
  abbrev pub Stopped : Type 0
  Stopped = (Result (Unit {0}) × Bool) × S

  abbrev pub on_result : Result (Unit {0}) × S → (S → Stopped) → Stopped
  on_result (err e, w) next = ((err e, false), w)
  on_result (ok _, w) next = next w

  unfoldable pub shutdown_all : List Service → S → Stopped
  shutdown_all [] w = ((ok tt, true), w)
  shutdown_all (service ∷ rest) w = on_result (service w) (shutdown_all rest)

  -- Server.Shutdown
  unfoldable pub shutdown : Server → S → Stopped
  shutdown s w = shutdown_all s.services w

  abbrev pub then_last : Service → Stopped → Stopped
  then_last service ((r, false), w) = ((r, false), w)
  then_last service ((r, true), w) = on_result (service w) (λ w'. ((ok tt, true), w'))

  shutdown_all-append :
      (services : List Service) (service : Service) (w : S)
      → shutdown_all (services ++ service ∷ []) w ≡ then_last service (shutdown_all services w)
  unfolding shutdown_all
  shutdown_all-append [] service w = refl
  shutdown_all-append (first ∷ rest) service w =
      went (first w) (λ w'. shutdown_all-append rest service w')
    where
      went :
          (r : Result (Unit {0}) × S)
          → ((w' : S)
              → shutdown_all (rest ++ service ∷ []) w' ≡ then_last service (shutdown_all rest w'))
          → on_result r (shutdown_all (rest ++ service ∷ []))
            ≡ then_last service (on_result r (shutdown_all rest))
      went (err e, w') next = refl
      went (ok _, w') next = next w'

  -- A service that is registered is shut down behind the others, if none of them fails; and the
  -- server is shut down if no service fails.
  pub shutdown-register :
      (s : Server) (service : Service) (w : S)
      → shutdown (register service s) w ≡ then_last service (shutdown s w)
  unfolding shutdown register
  shutdown-register s service w = shutdown_all-append s.services service w
