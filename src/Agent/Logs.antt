-- ===== src/Agent/Logs.antt =====
-- The log of a job that an agent runs: the agent's writer sends each line on a stream of its own,
-- and the server appends what it receives (remote/agent/remote_logger.go and
-- remote/server/log_writer.go).
use meeseeks_box.Base.{ℕ, List, [], ◌∷◌, ◌++◌, Bytes, Result, ok, err, wrapf, Error}
use meeseeks_box.Base.Decimal.{decimal}
use meeseeks_box.Model.{JobLog}
use meeseeks_box.Shell.{LogWriter}

-- What Recv of the server's stream gives: an entry, io.EOF, or the error of a status.
pub data Entry : Type 0 where
  entry : ℕ → Bytes → Entry
  eof timed_out broken : Entry

-- The entries that were sent and that the server has not received.
abbrev pub Flight : Type 0
Flight = List (ℕ × Bytes)

-- What gRPC gives to the agent for a stream, and for its Send.
pub record Link : Type 0 where
  pub acquire : Result (Unit {0})
  pub send : Result (Unit {0})

-- Send does not wait for the server: the entry is on its way.
abbrev pub sent_line : ℕ → Bytes → Result (Unit {0}) → Flight → Result (Unit {0}) × Flight
sent_line id content (err e) flight = (err e, flight)
sent_line id content (ok _) flight = (ok tt, flight ++ (id, content) ∷ [])

abbrev pub acquired : Link → ℕ → Bytes → Result (Unit {0}) → Flight → Result (Unit {0}) × Flight
acquired link id content (err e) flight =
    (err (wrapf "Failed to get a remote appender for job %d: %s" (decimal id ∷ []) e), flight)
acquired link id content (ok _) flight = sent_line id content link.send flight

-- grpcLogWriter.Append, with what gRPC gives for this line
unfoldable pub grpc_append : (ℕ → Bytes → Link) → ℕ → Bytes → Flight → Result (Unit {0}) × Flight
grpc_append links id content flight =
    let link = links id content in acquired link id content link.acquire flight

-- grpcLogWriter, whose SetError does nothing
unfoldable pub grpc_writer : (ℕ → Bytes → Link) → LogWriter Flight
grpc_writer links = record {
  append = grpc_append links;
  set_error = λ id e flight. (ok tt, flight);
}

module _ {S : Type 0} (w : LogWriter S) where
  -- logWriterServer.Append, which takes one entry; a failure to append is logged
  unfoldable pub append_entry : Entry → S → S
  append_entry (entry id line) s = (w.append id line s).1
  append_entry eof s = s
  append_entry timed_out s = s
  append_entry broken s = s

  -- logWriterServer.SetError
  unfoldable pub server_set_error : ℕ → Error → S → Result (Unit {0}) × S
  server_set_error id e s = w.set_error id e s

-- The end of a stream: the server receives the entry, or another end, since the agent cancels the
-- stream's context right behind Send.
pub data Receives : ℕ → Bytes → Entry → Type 0 where
  arrived : {id : ℕ} {line : Bytes} → Receives id line (entry id line)
  ended : {id : ℕ} {line : Bytes} → Receives id line eof
  cancelled : {id : ℕ} {line : Bytes} → Receives id line timed_out
  failed : {id : ℕ} {line : Bytes} → Receives id line broken

-- The streams end in any order.
pub data Delivery {S : Type 0} (w : LogWriter S) : Flight × S → Flight × S → Type 0 where
  none_yet : {o : Flight × S} → Delivery w o o
  next :
      (before behind : Flight) (id : ℕ) (line : Bytes) (r : Entry) {s : S} {o : Flight × S}
      → Receives id line r
      → Delivery w (before ++ behind, append_entry w r s) o
      → Delivery w (before ++ (id, line) ∷ behind, s) o

-- nullReader
unfoldable pub null_get : ℕ → Result JobLog
null_get id = ok (record { error = []; output = [] })
