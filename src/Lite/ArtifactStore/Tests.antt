-- ===== src/Lite/ArtifactStore/Tests.antt =====
-- harness/lite/artifact.go: artifacts of two tenants.
use openharness.Prelude.{true, ◌≡◌, refl, [], ◌∷◌}
use openharness.Prelude.GoMap
use openharness.Prelude.GoMap.{GoMap}
use openharness.Prelude.Paths.{join, join_all, clean}
use openharness.Prelude.Result.{ok}
use openharness.Lite.ArtifactStore.{Files, works, key_of, put, get}
use openharness.Lite.ArtifactStore.Kept.{WasPut, put-WasPut}

abbrev files : Files
files = record { items = ("/b/acme/r1/report", "secret") ∷ [] }

-- A name with `..` reaches the artifacts of another tenant.
other_tenant : key_of "evil" "r" "../../acme/r1/report" ≡ "acme/r1/report"
unfolding key_of join_all clean
other_tenant = refl

outside : join "/b" "../etc/passwd" ≡ "/etc/passwd"
unfolding join clean
outside = refl

read_back : get "/b" true "acme/r1/report" files ≡ ok "secret"
unfolding get join clean GoMap.get GoMap.find
read_back = refl

put-WasPut_example :
    WasPut "/b"
      (key_of "acme" "r1" "report")
      works
      "new text"
      "acme/r1/report"
      (get "/b" true "acme/r1/report" files)
      (put "/b" works "acme" "r1" "report" "new text" files).0
      (get "/b" true "acme/r1/report" (put "/b" works "acme" "r1" "report" "new text" files).1)
put-WasPut_example = put-WasPut "/b" works "acme" "r1" "report" "new text" files "acme/r1/report"
