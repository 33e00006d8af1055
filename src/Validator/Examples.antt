-- ===== src/Validator/Examples.antt =====
-- Runs of pkg/validator and instances of its theorems.
use ztre.Base.{lit, [], ◌∷◌, ◌≡◌, refl}
use ztre.Base.Dict
use ztre.Base.FilePath.{base}
use ztre.Files.{not_exist, decoded}
use ztre.Validator.{
  normal, suspicious, anomalous, WhitelistEntry, Allow, load, load_multi, merge_entries, classify,
}
use ztre.Validator.Lineage.{last_entry, verdict, classify-load}
use ztre.Validator.Overrides.{classify-merge_entries}

abbrev nginx_entry : WhitelistEntry
nginx_entry = record {
  parent = lit "/usr/sbin/nginx";
  allowed_children = lit "/bin/sh" ∷ lit "nginx" ∷ [];
}

abbrev nginx_override : WhitelistEntry
nginx_override = record { parent = lit "nginx"; allowed_children = lit "curl" ∷ [] }

abbrev loaded : Allow
loaded = (load [] (decoded (nginx_entry ∷ []))).0

sh_is_normal : classify loaded (lit "nginx") (lit "sh") ≡ normal
unfolding classify load Dict.get Dict.put base
sh_is_normal = refl

curl_is_anomalous : classify loaded (lit "/usr/sbin/nginx") (lit "/usr/bin/curl") ≡ anomalous
unfolding classify load Dict.get Dict.put base
curl_is_anomalous = refl

python_is_suspicious : classify loaded (lit "python") (lit "sh") ≡ suspicious
unfolding classify load Dict.get Dict.put base
python_is_suspicious = refl

-- A second entry with the same base name replaces the first in `Load`, and adds to it in `LoadMulti`.
load_forgets :
    classify (load [] (decoded (nginx_entry ∷ nginx_override ∷ []))).0 (lit "nginx") (lit "sh")
    ≡ anomalous
unfolding classify load Dict.get Dict.put base
load_forgets = refl

load_multi_unites :
    classify
      (load_multi loaded (not_exist ∷ decoded (nginx_override ∷ []) ∷ [])).0
      (lit "nginx")
      (lit "sh")
    ≡ normal
unfolding classify load load_multi Dict.get Dict.put base
load_multi_unites = refl

classify-load_example :
    classify (load loaded (decoded (nginx_entry ∷ []))).0 (lit "nginx") (lit "sh")
    ≡ verdict (last_entry (nginx_entry ∷ []) (base (lit "nginx"))) (base (lit "sh"))
classify-load_example = classify-load loaded (nginx_entry ∷ []) (lit "nginx") (lit "sh")

classify-merge_entries_example :
    classify (merge_entries loaded (nginx_override ∷ [])) (lit "nginx") (lit "curl") ≡ normal
unfolding load Dict.get Dict.put base
classify-merge_entries_example =
    classify-merge_entries loaded (nginx_override ∷ []) (lit "nginx") (lit "curl")
