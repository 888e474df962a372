-- ===== src/Decide/Skip.antt =====
-- internal/decide/skip.go: whether a file is still the one that was written.
use codarr.Prelude.{
  String, Bool, true, false, not, ◌&&◌, Option, none, some, str_eq, ◌≡◌, ◌≢◌, ◌↔◌, arith, eq_iff,
  ◌<>◌, quote, if◌then◌else◌,
}
use codarr.Domain.Media.{Provenance, codarr_output, derive_provenance}
use codarr.Probe
use codarr.Probe.{lookup_tag}

abbrev pub tag_present : String
tag_present = "CODARR"

abbrev pub tag_policy : String
tag_policy = "CODARR_POLICY"

pub record SkipCheck : Type 0 where
  pub skip : Bool
  pub tagged : Bool
  pub policy_matches : Bool
  pub fingerprint_matches : Bool
  pub provenance : Provenance
  pub reason : String

unfoldable pub tag_of : Option Probe.Result → String → Option String
tag_of none name = none
tag_of (some probe) name = lookup_tag probe.format.tags name

abbrev pub is_found : Option String → Bool
is_found none = false
is_found (some v) = true

-- A missing tag reads as the empty text.
abbrev pub value_of : Option String → String
value_of none = ""
value_of (some v) = v

unfoldable pub check_skip : String → Option Probe.Result → String → String → SkipCheck
check_skip policy_hash probe current recorded =
    let tagged = is_found (tag_of probe tag_present) in
    let policy = value_of (tag_of probe tag_policy) in
    let policy_matches = str_eq policy policy_hash in
    let fingerprint_matches =
      not (str_eq recorded "") && not (str_eq current "") && str_eq recorded current in
    let c : SkipCheck = record {
      skip = false;
      tagged = tagged;
      policy_matches = policy_matches;
      fingerprint_matches = fingerprint_matches;
      provenance = derive_provenance recorded current;
      reason = "";
    } in
    if not tagged
    then record c { reason = "no CODARR tag" }
    else if not policy_matches
    then record c {
      reason = "tagged with policy " <> quote policy <> ", current policy is " <> quote policy_hash;
    }
    else if not fingerprint_matches
    then record c {
      reason =
          "tagged and on the current policy, but the file no longer matches the fingerprint Codarr recorded";
    }
    else record c {
      skip = true;
      reason = "tagged, on the current policy, and unchanged since Codarr wrote it";
    }

module _ (hash : String) (probe : Option Probe.Result) (current recorded : String) where
  -- A file is skipped exactly when it carries the tag, its policy tag is the policy in force, and the
  -- recorded fingerprint is a known one and still the current one; the file is then an output that
  -- nothing has modified.
  pub check_skip_iff : ((check_skip hash probe current recorded).skip ≡ true) ↔ (
      (is_found (tag_of probe tag_present) ≡ true)
      × (value_of (tag_of probe tag_policy) ≡ hash)
      × (recorded ≢ "")
      × (recorded ≡ current)
      × ((check_skip hash probe current recorded).provenance ≡ codarr_output))
  unfolding check_skip derive_provenance
  check_skip_iff = ground (
    arith,
    eq_iff (value_of (tag_of probe tag_policy)) hash,
    eq_iff recorded "",
    eq_iff current "",
    eq_iff recorded current,
  )
