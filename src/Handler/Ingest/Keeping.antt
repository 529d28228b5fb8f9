-- ===== src/Handler/Ingest/Keeping.antt =====
-- A request that arrives keeps the keys.
use nitrohook.Io.{Host, World}
use nitrohook.Store.Keys.{HasKeys}
use nitrohook.Store.Keys.Kept.{clients-HasKeys}
use nitrohook.Handler.Ingest.{Request, Json, ingest}
use nitrohook.Handler.Keeps.{ingest-Keeps}

-- Whichever calls fail, a request that arrives leaves no two deliveries with one id, or with one
-- source and one idempotency key, and no other rows in conflict, if there were none before.
ingest-HasKeys :
    (host : Host) (json : Json) (r : Request) (w : World)
    → HasKeys w.db
    → HasKeys (ingest host json r w).1.db
ingest-HasKeys host json r w h = (ingest-Keeps (clients-HasKeys host) json r).at w h
