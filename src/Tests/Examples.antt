-- ===== src/Tests/Examples.antt =====
-- The code run on the small installation, and each theorem at an input that meets its hypotheses.
use nitrohook.Prelude.{inl, ◌≡◌, refl, List, [], ◌∷◌}
use nitrohook.Model.{pending, processing, completed, Delivery}
use nitrohook.Io.{World, query, exec, pure}
use nitrohook.Store.Deliveries
use nitrohook.Store.Deliveries.{attempts_of}
use nitrohook.Store.Actions
use nitrohook.Store.Actions.{active_of}
use nitrohook.Store.Sources
use nitrohook.Dispatch
use nitrohook.Worker.RollUp.{latest, any_failed, roll_up_delivery_status}
use nitrohook.Worker.RollUp.Outcome.{RolledUp, roll_up-RolledUp, roll_up-waits}
use nitrohook.Worker.Process.{apply_action_transform, process_delivery}
use nitrohook.Worker.Retry.{poll_pending}
use nitrohook.Worker.Backoff.{next_retry_time, delay}
use nitrohook.Worker.Jobs.{pending_tick, run_jobs}
use nitrohook.Tests.Setup.{host, env, world, delivery, action}

abbrev statuses : World → List Delivery
statuses w = w.db.deliveries

-- The delivery is taken up, dispatched and completed by one tick.
up_completes :
    statuses (run_jobs env (pending_tick ∷ []) (world "up" pending)).1 ≡ delivery completed ∷ []
unfolding run_jobs poll_pending process_delivery roll_up_delivery_status any_failed latest
    Deliveries.get_by_id Deliveries.update_status Deliveries.list_pending Deliveries.create_attempt
    Deliveries.update_attempt Deliveries.list_attempts_by_delivery Actions.list_active_by_source
    Sources.get_by_id query exec pure apply_action_transform Dispatch.get
up_completes = refl

-- Where the action fails, the first attempt waits for its retry.
down_waits :
    statuses (run_jobs env (pending_tick ∷ []) (world "down" pending)).1 ≡ delivery processing ∷ []
unfolding run_jobs poll_pending process_delivery roll_up_delivery_status any_failed latest
    Deliveries.get_by_id Deliveries.update_status Deliveries.list_pending Deliveries.create_attempt
    Deliveries.update_attempt Deliveries.list_attempts_by_delivery Actions.list_active_by_source
    Sources.get_by_id query exec pure apply_action_transform Dispatch.get next_retry_time delay
down_waits = refl

roll_up-RolledUp_example :
    RolledUp 3 7 1
      (world "up" processing).db
      (roll_up_delivery_status host 3 7 (world "up" processing)).1.db
roll_up-RolledUp_example =
    roll_up-RolledUp host 3 7 (delivery processing) (world "up" processing) (λ n. refl) refl

roll_up-waits_example :
    (roll_up_delivery_status host 3 7 (world "up" processing)).1.db ≡ (world "up" processing).db
unfolding attempts_of active_of
roll_up-waits_example =
    roll_up-waits host 3 7 (delivery processing) (world "up" processing) (action "up") (λ n. refl)
      refl (inl refl) tt
