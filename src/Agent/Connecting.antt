-- ===== src/Agent/Connecting.antt =====
-- Connect of remote/agent/agent.go: the logs of an agent go to its server.
use meeseeks_box.Base.{◌≡◌, refl, [], ◌∷◌, none, some, Bytes, Result, ok, err, wrapf}
use meeseeks_box.Persistence.Providers.{Providers, register}

module _ (Aliases Jobs Tokens Reader Writer : Type 0) where
  abbrev pub Services : Type 0
  Services = Providers Aliases Jobs Tokens Reader Writer

  abbrev pub remote_logs : Reader → Writer → Services
  remote_logs reader writer = record {
    aliases = none;
    jobs = none;
    api_tokens = none;
    log_reader = some reader;
    log_writer = some writer;
  }

  -- The result of grpc.Dial decides.
  abbrev pub dialed :
      Bytes → Reader → Writer → Result (Unit {0}) → Services → Result (Unit {0}) × Services
  dialed url reader writer (err e) p =
      (err (wrapf "could not connect to remote server %s: %s" (url ∷ []) e), p)
  dialed url reader writer (ok _) p =
      (ok tt, register Aliases Jobs Tokens Reader Writer (remote_logs reader writer) p)

  -- RemoteClient.Connect, with the null reader and the writer of the connection
  unfoldable pub connect :
      Bytes → Reader → Writer → Result (Unit {0}) → Services → Result (Unit {0}) × Services
  connect url reader writer dial p = dialed url reader writer dial p

  -- A connected agent writes its logs to the connection, and its other services stay.
  pub connect-logs :
      (url : Bytes) (reader : Reader) (writer : Writer) (p : Services)
      → (connect url reader writer (ok tt) p).1
        ≡ record p { log_reader = some reader; log_writer = some writer }
  unfolding connect register
  connect-logs url reader writer p = refl
