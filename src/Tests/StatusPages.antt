-- ===== src/Tests/StatusPages.antt =====
-- Pages of two users, and their visits.
use devops_hackathon.Prelude.{
  ℕ, ◌≡◌, ◌≢◌, refl, ap, true, false, none, some, [], ◌∷◌, arith, All, length,
}
use devops_hackathon.Prelude.Texts.{Text, codes}
use devops_hackathon.Monitor.{Monitor}
use devops_hackathon.Http.{returned, thrown, api_error, plain}
use devops_hackathon.Uptime.{Windows, Window}
use devops_hackathon.StatusPage.{Page, Body, listed}
use devops_hackathon.StatusPage.Slug.{slugify}
use devops_hackathon.StatusPage.Slug.Shape.{KeepsSlugs, without_last_dash}
use devops_hackathon.StatusPage.Manage.{Outside, Db, new_page, create_status_page}
use devops_hackathon.StatusPage.Public.{get_public_status_page, shown_page}
use devops_hackathon.StatusPage.Ownership.{new_page-is_owned, is_owned}
use devops_hackathon.StatusPage.Addresses.{IsSafe}
use devops_hackathon.StatusPage.Requests.{start, after_create, Reachable-IsSafe}
use devops_hackathon.StatusPage.Visits.{get_public_status_page-IsSeenAs}
use devops_hackathon.StatusPage.Published.{
  create_status_page-visited, create_status_page-unreachable,
}
use devops_hackathon.Tests.Samples.{site}

abbrev shown : ℕ → Text
shown n = n ∷ []

abbrev read : Text → ℕ
read [] = 0
read (n ∷ ns) = n

abbrev outside : Outside
outside = record {
  unicode = record { normalize = λ t. t; to_lower_case = λ t. t };
  ids = record { is_valid_object_id = λ t. true; object_id = read; show = shown };
}

keeps : KeepsSlugs outside.unicode
keeps t h = (refl, refl)

abbrev body : Body
body = record {
  name = some (codes "my shop!");
  description = none;
  monitors = listed (shown 7 ∷ []);
  is_public = none;
  slug = none;
}

abbrev db : Db
db = record { pages = []; monitors = site ∷ [] }

abbrev shop : Page
shop = record {
  id = 9;
  user_id = 3;
  name = codes "my shop!";
  slug = codes "my-shop";
  description = [];
  monitors = 7 ∷ [];
  is_public = true;
  created_at = 1000;
}

slug_of_shop : slugify outside.unicode (codes "  my -- shop!") ≡ codes "my-shop"
unfolding slugify
slug_of_shop = refl

new_shop : new_page outside 3 body db 9 1000 ≡ returned shop
unfolding new_page
new_shop = refl

Reachable-IsSafe_example : IsSafe (create_status_page outside 3 body db [] 9 1000).1
Reachable-IsSafe_example =
    Reachable-IsSafe outside (create_status_page outside 3 body db [] 9 1000).1
      (after_create 3 body db 9 1000 start)

new_page-is_owned_example :
    (shop.user_id ≡ 3) × All (λ id. is_owned (site ∷ []) 3 id ≡ true) (7 ∷ [])
new_page-is_owned_example = new_page-is_owned outside (λ id. refl) 3 body db 9 1000 shop new_shop

abbrev unchecked : Window
unchecked = record {
  uptime = none;
  total_checks = 0;
  up_checks = 0;
  down_checks = 0;
  avg_latency_ms = none;
  last_check_at = none;
}

abbrev no_logs : ℕ → Windows
no_logs id = record { last_day = unchecked; last_week = unchecked; last_month = unchecked }

abbrev moved : Monitor → Monitor
moved m = record m { url = "https://internal.example"; auth_headers = some "v1:x" }

get_public_status_page-IsSeenAs_example :
    get_public_status_page outside.unicode (shop ∷ []) (moved site ∷ []) no_logs 5 (codes "my-shop")
    ≡ get_public_status_page outside.unicode (shop ∷ []) (site ∷ []) no_logs 5 (codes "my-shop")
get_public_status_page-IsSeenAs_example =
    get_public_status_page-IsSeenAs moved (λ m. (refl, refl, refl, refl, refl)) outside.unicode
      (shop ∷ []) (site ∷ []) no_logs 5 (codes "my-shop")

abbrev hidden : Page
hidden = record shop { is_public = false }

created_shop : (create_status_page outside 3 body db [] 9 1000).0 ≡ returned shop
unfolding create_status_page
created_shop = refl

create_status_page-visited_example :
    get_public_status_page outside.unicode
      (create_status_page outside 3 body db [] 9 1000).1
      (site ∷ [])
      no_logs
      5
      (codes "my-shop")
    ≡ returned (shown_page no_logs 5 (site ∷ []) shop)
create_status_page-visited_example =
    create_status_page-visited outside keeps 3 body db [] 9 1000 shop created_shop refl refl
      (site ∷ []) no_logs 5

-- The sixtieth character of the slug is the dash.
abbrev long_name : Text
long_name = codes "aaaaaaaaaaaaaaaaaaaaaaaaaaaaaaaaaaaaaaaaaaaaaaaaaaaaaaaaaaa b"

abbrev long_page : Page
long_page = record shop {
  name = long_name;
  slug = codes "aaaaaaaaaaaaaaaaaaaaaaaaaaaaaaaaaaaaaaaaaaaaaaaaaaaaaaaaaaa-";
}

abbrev long_body : Body
long_body = record body { name = some long_name }

created_long : (create_status_page outside 3 long_body db [] 9 1000).0 ≡ returned long_page
unfolding create_status_page
created_long = refl

ends_in_dash : without_last_dash long_page.slug ≢ long_page.slug
ends_in_dash h = let k = ap (λ t. length t) h in ground (arith, k)

create_status_page-unreachable_example :
    get_public_status_page outside.unicode
      (create_status_page outside 3 long_body db [] 9 1000).1
      (site ∷ [])
      no_logs
      5
      long_page.slug
    ≡ thrown (api_error 404 (plain "Status page not found"))
create_status_page-unreachable_example =
    create_status_page-unreachable outside keeps 3 long_body db [] 9 1000 long_page created_long
      ends_in_dash refl (site ∷ []) no_logs 5
