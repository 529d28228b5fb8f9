-- ===== src/Worker/Stream/Acknowledged.antt =====
-- What becomes of the entries that are read.
use nitrohook.Prelude.{
  String, ◌≡◌, refl, ap, Bool, true, false, Option, none, some, List, [], ◌∷◌, ◌++◌, map, select,
  select-append, map-append,
}
use nitrohook.Io.{World, call, pure}
use nitrohook.Model.{Uuid}
use nitrohook.Io.Reliable.{tick}
use nitrohook.Worker.Env.{Env}
use nitrohook.Worker.Stream.{
  Entry, Reading, timed_out, broken, read, Command, xack, xdel, issue, consume_parsed,
  consume_value, consume, consume_entries, consume_streams, consume_reading, consume_round,
  consume_stream,
}

-- The entries of some rounds.
unfoldable pub entries_of : Reading → List (List Entry)
entries_of timed_out = []
entries_of (broken text) = []
entries_of (read streams) = streams

unfoldable pub joined : {A : Type 0} → List (List A) → List A
joined [] = []
joined (xs ∷ rest) = xs ++ joined rest

unfoldable pub entries : List Reading → List Entry
unfolding entries_of joined
entries [] = []
entries (r ∷ rest) = joined (entries_of r) ++ entries rest

-- The ids that are acknowledged, and those that are deleted.
unfoldable pub acknowledged : List Command → List String
acknowledged [] = []
acknowledged (xack id ∷ rest) = id ∷ acknowledged rest
acknowledged (xdel id ∷ rest) = acknowledged rest

unfoldable pub deleted : List Command → List String
deleted [] = []
deleted (xack id ∷ rest) = deleted rest
deleted (xdel id ∷ rest) = id ∷ deleted rest

acknowledged-append :
    (xs ys : List Command) → acknowledged (xs ++ ys) ≡ acknowledged xs ++ acknowledged ys
unfolding acknowledged
acknowledged-append [] ys = refl
acknowledged-append (xack id ∷ xs) ys = ap (λ l. id ∷ l) (acknowledged-append xs ys)
acknowledged-append (xdel id ∷ xs) ys = acknowledged-append xs ys

deleted-append : (xs ys : List Command) → deleted (xs ++ ys) ≡ deleted xs ++ deleted ys
unfolding deleted
deleted-append [] ys = refl
deleted-append (xack id ∷ xs) ys = deleted-append xs ys
deleted-append (xdel id ∷ xs) ys = ap (λ l. id ∷ l) (deleted-append xs ys)

module _ (env : Env) where
  open env use {host}

  -- The value of an entry is the text of a UUID.
  names : Option String → Bool
  names none = false
  names (some text) = elim (host.uuid_parse text) [ none ↦ false | some id ↦ true ]

  -- An entry that names a delivery.
  unfoldable pub is_valid : Entry → Bool
  unfolding names
  is_valid e = names e.values.delivery_id

  -- The commands for some entries are those that they should be.
  pub record IsServed (es : List Entry) (commands : List Command) : Type 0 where
    pub acks : acknowledged commands ≡ map (λ e. e.id) es
    pub dels : deleted commands ≡ map (λ e. e.id) (select is_valid es)

  IsServed-append :
      (es fs : List Entry) (xs ys : List Command)
      → IsServed es xs
      → IsServed fs ys
      → IsServed (es ++ fs) (xs ++ ys)
  IsServed-append es fs xs ys h k = record {
    acks = rw (acknowledged-append xs ys, map-append (λ e. e.id) es fs, h.acks, k.acks) refl;
    dels =
        rw
          (
            deleted-append xs ys,
            select-append is_valid es fs,
            map-append (λ e. e.id) (select is_valid es) (select is_valid fs),
            h.dels,
            k.dels,
          )
          refl;
  }

  consume_parsed-IsServed :
      (e : Entry) (o : Option Uuid) (w : World)
      → is_valid e ≡ elim o [ none ↦ false | some id ↦ true ]
      → IsServed (e ∷ []) (consume_parsed env e o w).0
  unfolding consume_parsed issue pure acknowledged deleted
  consume_parsed-IsServed e none w v = record { acks = refl; dels = rw v refl }
  consume_parsed-IsServed e (some id) w v = record { acks = refl; dels = rw v refl }

  consume_value-IsServed :
      (e : Entry) (o : Option String) (w : World)
      → is_valid e ≡ names o
      → IsServed (e ∷ []) (consume_value env e o w).0
  unfolding consume_value issue pure acknowledged deleted names
  consume_value-IsServed e none w v = record { acks = refl; dels = rw v refl }
  consume_value-IsServed e (some text) w v = consume_parsed-IsServed e (host.uuid_parse text) w v

  consume-IsServed : (e : Entry) (w : World) → IsServed (e ∷ []) (consume env e w).0
  unfolding consume is_valid
  consume-IsServed e w = consume_value-IsServed e e.values.delivery_id w refl

  none-IsServed : IsServed [] []
  unfolding acknowledged deleted
  none-IsServed = record { acks = refl; dels = refl }

  consume_entries-IsServed :
      (es : List Entry) (w : World) → IsServed es (consume_entries env es w).0
  unfolding consume_entries pure
  consume_entries-IsServed [] w = none-IsServed
  consume_entries-IsServed (e ∷ rest) w =
      IsServed-append (e ∷ []) rest (consume env e w).0 _ (consume-IsServed e w)
        (consume_entries-IsServed rest (consume env e w).1)

  consume_streams-IsServed :
      (l : List (List Entry)) (w : World) → IsServed (joined l) (consume_streams env l w).0
  unfolding consume_streams joined pure
  consume_streams-IsServed [] w = none-IsServed
  consume_streams-IsServed (es ∷ rest) w =
      IsServed-append es (joined rest) (consume_entries env es w).0 _
        (consume_entries-IsServed es w) (consume_streams-IsServed rest (consume_entries env es w).1)

  consume_reading-IsServed :
      (r : Reading) (w : World) → IsServed (joined (entries_of r)) (consume_reading env r w).0
  unfolding consume_reading entries_of joined pure
  consume_reading-IsServed timed_out w = none-IsServed
  consume_reading-IsServed (broken text) w = none-IsServed
  consume_reading-IsServed (read l) w = consume_streams-IsServed l w

  -- Every entry that is read is acknowledged exactly once, in the order of reading, and exactly
  -- those that name a delivery are deleted from the stream; a round that times out or fails does
  -- neither.
  pub consume_stream-IsServed :
      (readings : List Reading) (w : World)
      → IsServed (entries readings) (consume_stream env readings w).0
  unfolding consume_stream consume_round entries pure call
  consume_stream-IsServed [] w = none-IsServed
  consume_stream-IsServed (r ∷ rest) w =
      IsServed-append (joined (entries_of r)) (entries rest) (consume_round env r w).0 _
        (consume_reading-IsServed r (tick w))
        (consume_stream-IsServed rest (consume_round env r w).1)
