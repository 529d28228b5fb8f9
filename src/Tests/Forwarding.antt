-- ===== src/Tests/Forwarding.antt =====
-- A recorded delivery that is forwarded, references that come back, a slug, and a list.
use nitrohook.Prelude.{ℕ, some, ◌≡◌, refl, List, [], ◌∷◌}
use nitrohook.Model.{recorded}
use nitrohook.Script.{parse_refs, refs_for_js}
use nitrohook.Worker.Process.{filter_actions, refs_of}
use nitrohook.Worker.Process.Filtering.{filter_actions-refs_of}
use nitrohook.Web.Forward.{forward_delivery}
use nitrohook.Web.Forward.Forwarded.{IsAnswered, forward_delivery-IsAnswered}
use nitrohook.Io.Reliable.{tick}
use nitrohook.Dispatch.Net.{pos}
use nitrohook.Handler.Deliveries.{list}
use nitrohook.Handler.Deliveries.Limit.{IsListed, list-IsListed}
use nitrohook.Handler.Slug.{generate_slug}
use nitrohook.Handler.Slug.Form.{IsSlug, generate_slug-IsSlug, generate_slug-eq}
use nitrohook.Tests.Setup.{host, vm, action, recording, world_of}

forward_delivery-IsAnswered_example :
    IsAnswered host "orders" "delivery"
      (world_of recording "up" recorded)
      (forward_delivery host "orders" "delivery" (world_of recording "up" recorded))
forward_delivery-IsAnswered_example =
    forward_delivery-IsAnswered host "orders" "delivery" (world_of recording "up" recorded)

filter_actions-refs_of_example :
    filter_actions (action "up" ∷ []) (parse_refs vm (refs_for_js vm (refs_of (action "up" ∷ []))))
    ≡ action "up" ∷ []
filter_actions-refs_of_example = filter_actions-refs_of vm (action "up" ∷ []) (refl, tt)

-- "-a  b!" and "a-b"
abbrev name : List ℕ
name = 45 ∷ 97 ∷ 32 ∷ 32 ∷ 98 ∷ 33 ∷ []

abbrev slug : List ℕ
slug = 97 ∷ 45 ∷ 98 ∷ []

name_slug : generate_slug (λ s. s) name ≡ slug
unfolding generate_slug
name_slug = refl

generate_slug-IsSlug_example : IsSlug (generate_slug (λ s. s) name)
generate_slug-IsSlug_example = generate_slug-IsSlug (λ s. s) name

generate_slug-eq_example : generate_slug (λ s. s) slug ≡ slug
generate_slug-eq_example =
    generate_slug-eq (λ s. s) slug
      (record {
        plain = (refl, (refl, (refl, tt)));
        spaced = (refl, (refl, (refl, tt)));
        starts = refl;
        ends = refl;
      })
      refl

list-IsListed_example :
    IsListed 200
      (list host (λ _. some (pos 500)) "orders" "500" (world_of recording "up" recorded)).0
    × ((list host (λ _. some (pos 500)) "orders" "500" (world_of recording "up" recorded)).1
        ≡ tick (world_of recording "up" recorded))
list-IsListed_example =
    list-IsListed host (λ _. some (pos 500)) "orders" "500" (world_of recording "up" recorded)
