-- ===== src/Tests/Cleanup.antt =====
-- Runs of the planning of the listing and of stale cleanup (rust/src/s3/destination.rs).
use shin_bucket_deployment.Prelude.{List, [], ◌∷◌, ◌⊎◌, none, some, ◌≡◌, Bytes, bytes, ok}
use shin_bucket_deployment.Destination.Candidates.{IsBounded}
use shin_bucket_deployment.Destination.Plan.{plan_destination}
use shin_bucket_deployment.Destination.Plan.Listing.{listed_keys, plan_destination-IsBounded}
use shin_bucket_deployment.Destination.Cleanup.{Deletion, delete_stale_objects}
use shin_bucket_deployment.Destination.Cleanup.Agreement.{Lister}
use shin_bucket_deployment.Destination.Cleanup.Exact.{Cleans, delete_stale_objects_exact}
use shin_bucket_deployment.Namespace.{namespace_list_prefix}
use shin_bucket_deployment.Tests.Data.{the_request, no_filters, the_manifest, the_pages, the_tags}

plan_destination-IsBounded_example :
    IsBounded
      (plan_destination the_request none none no_filters the_manifest the_pages).current_stale
    × IsBounded
        (plan_destination the_request none none no_filters the_manifest the_pages).previous_stale
plan_destination-IsBounded_example =
    plan_destination-IsBounded the_request none none no_filters the_manifest the_pages

-- By the time of a scan the bucket lists a key more, and nothing under other prefixes.
abbrev later_listing : Lister
later_listing bucket none = bytes "elsewhere" ∷ []
later_listing bucket (some prefix) = bytes "site/old/new" ∷ listed_keys the_pages

delete_stale_objects_exact_example :
    (ds : List Deletion) × (delete_stale_objects {E = Bytes} the_request
        (some (bytes "site/other"))
        (some (bytes "site/old"))
        no_filters
        the_manifest
        (plan_destination the_request
          (some (bytes "site/other"))
          (some (bytes "site/old"))
          no_filters
          the_manifest
          the_pages)
        (ok the_tags)
      ≡ ok ds)
    × (Cleans the_request
          (some (bytes "site/other"))
          no_filters
          the_manifest
          the_pages
          the_tags
          (some (bytes "site/old"))
          ds
          later_listing
          (listed_keys the_pages)
        ⊎ Cleans the_request
            (some (bytes "site/other"))
            no_filters
            the_manifest
            the_pages
            the_tags
            (some (bytes "site/old"))
            ds
            later_listing
            (later_listing the_request.dest_bucket_name
              (namespace_list_prefix the_request.dest_bucket_prefix)))
delete_stale_objects_exact_example =
    delete_stale_objects_exact the_request (some (bytes "site/other")) no_filters the_manifest
      the_pages the_tags {E = Bytes} (some (bytes "site/old")) later_listing
