-- ===== src/Worker/Stream.antt =====
-- consumeStream: the entries of the stream that one consumer of the group reads.
pub mod Acknowledged
use nitrohook.Prelude.{String, Bool, true, false, Option, none, some, List, [], ◌∷◌, ◌++◌, same}
use nitrohook.Model.{Uuid}
use nitrohook.Io.{Message, Io, ◌>>=◌, ◌>>◌, call, pure}
use nitrohook.Worker.Env.{Env}
use nitrohook.Worker.Process.{process_delivery}

-- redis.XMessage
pub record Entry : Type 0 where
  pub id : String
  pub values : Message

-- The result of XREADGROUP: redis.Nil, another error, or the entries of the streams.
pub data Reading : Type 0 where
  timed_out : Reading
  broken : String → Reading
  read : List (List Entry) → Reading

-- XACK and XDEL of an entry, by its id.
pub data Command : Type 0 where
  xack xdel : String → Command

-- A command whose result is not looked at.
unfoldable pub issue : Command → Io (List Command)
unfolding call pure
issue c = do call; pure (c ∷ [])

abbrev pub is_forced : Option String → Bool
is_forced none = false
is_forced (some value) = same value "1"

-- The results are the commands that are issued, in their order.
module _ (env : Env) where
  open env use {host}

  unfoldable pub consume_parsed : Entry → Option Uuid → Io (List Command)
  unfolding issue pure
  consume_parsed e none = issue (xack e.id)
  consume_parsed e (some id) = do
    process_delivery env id (is_forced e.values.force)
    acked ← issue (xack e.id)
    deleted ← issue (xdel e.id)
    pure (acked ++ deleted)

  unfoldable pub consume_value : Entry → Option String → Io (List Command)
  unfolding consume_parsed
  consume_value e none = issue (xack e.id)
  consume_value e (some text) = consume_parsed e (host.uuid_parse text)

  -- The body of the loop over the entries.
  unfoldable pub consume : Entry → Io (List Command)
  unfolding consume_value
  consume e = consume_value e e.values.delivery_id

  unfoldable pub consume_entries : List Entry → Io (List Command)
  unfolding consume pure
  consume_entries [] = pure []
  consume_entries (e ∷ rest) = do
    here ← consume e
    there ← consume_entries rest
    pure (here ++ there)

  unfoldable pub consume_streams : List (List Entry) → Io (List Command)
  unfolding consume_entries pure
  consume_streams [] = pure []
  consume_streams (s ∷ rest) = do
    here ← consume_entries s
    there ← consume_streams rest
    pure (here ++ there)

  -- One round of the loop: XREADGROUP, and what follows its result.
  unfoldable pub consume_reading : Reading → Io (List Command)
  unfolding consume_streams pure
  consume_reading timed_out = pure []
  consume_reading (broken text) = pure []
  consume_reading (read streams) = consume_streams streams

  unfoldable pub consume_round : Reading → Io (List Command)
  unfolding consume_reading call
  consume_round r = do call; consume_reading r

  -- The loop, until the context is done.
  unfoldable pub consume_stream : List Reading → Io (List Command)
  unfolding consume_round pure
  consume_stream [] = pure []
  consume_stream (r ∷ rest) = do
    here ← consume_round r
    there ← consume_stream rest
    pure (here ++ there)
