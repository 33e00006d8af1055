-- ===== src/Discovery/WhitelistFile/Documents.antt =====
-- A YAML library that keeps the document beside its comments, for the instances of the theorems on the
-- files of pkg/discovery/reporter.go.
use ztre.Base.{GoString, lit, ◌++◌, true, Option, none, some, [], ◌≡◌, refl}
use mathlib.Core.List.{append-nil}
use ztre.Discovery.Snapshots.{written}
use ztre.Discovery.Reporter.Entries.{read_entries}
use ztre.Discovery.Report.{Saving}
use ztre.Discovery.WhitelistFile.{WhitelistConfig, Yaml}
use ztre.Discovery.WhitelistFile.Comments.{Scan, line_start, in_comment, in_text, scan, IsComments}
use ztre.Discovery.WhitelistFile.Reading.{IsYaml}

-- What follows whole comment lines.
abbrev pub after_comments {ℓ} : {A : Type ℓ} → Scan → A → Option A
after_comments line_start a = some a
after_comments in_comment a = none
after_comments in_text a = none

abbrev pub documents : Yaml
documents = record {
  Doc = GoString × WhitelistConfig;
  marshal = λ wl. some ([], wl);
  under = λ text doc. (text ++ doc.0, doc.1);
  unmarshal_config = λ doc. after_comments (scan line_start doc.0) doc.1;
  unmarshal_entries =
      λ doc. after_comments (scan line_start doc.0) (read_entries doc.1.whitelisted_lineages);
  rfc3339 = λ t. lit "2026-01-01T00:00:00Z";
}

read_back {ℓ} :
    {A : Type ℓ} (comments : GoString) (a : A)
    → IsComments comments
    → after_comments (scan line_start (comments ++ [])) a ≡ some a
read_back comments a h = rw (append-nil comments, h) refl

document_of :
    (wl : WhitelistConfig) (doc : GoString × WhitelistConfig)
    → documents.marshal wl ≡ some doc
    → doc ≡ ([], wl)
document_of wl doc h = cc

pub documents-IsYaml : IsYaml documents
documents-IsYaml = record {
  marshals = λ wl. (([], wl), refl);
  config_back = λ wl doc comments h k. rw (document_of wl doc h) (read_back comments wl k);
  entries_back = λ wl doc comments h k.
      rw (document_of wl doc h) (read_back comments (read_entries wl.whitelisted_lineages) k);
  one_line = λ t. refl;
}

abbrev pub working : Saving (GoString × WhitelistConfig)
working = record { mkdir_ok = true; write = written }
