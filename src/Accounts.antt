-- ===== src/Accounts.antt =====
-- The review of local accounts against the directory and the approvals:
-- src/mori_soc/services/account_recon.py. A field that is missing reads as "".
use mori_soc.Prelude.{
  ltb, if◌then◌else◌, length, select, count_if, or_text, contains, text_lt, strip, lower,
  split_list, ℕ, ◌+◌, ◌-◌, ◌/◌, String, Bool, true, false, not, ◌&&◌, ◌||◌, Option, none, some,
  List, [], ◌∷◌, ◌++◌, map, ◌==◌,
}
use mori_soc.Prelude.Dict.{Dict, get, is_some, or_value, put, index_by}
use mori_soc.Prelude.Tally.{bump}
pub mod Findings

abbrev pub disabled_statuses : List String
disabled_statuses = "disabled" ∷ "locked" ∷ "deleted" ∷ "inactive" ∷ "expired" ∷ []

abbrev pub finding_kinds : List String
finding_kinds = "leaver" ∷ "orphan_priv" ∷ "unapproved_sudo" ∷ "dormant" ∷ []

abbrev pub priv_groups : List String
priv_groups = "root" ∷ "wheel" ∷ "sudo" ∷ "admin" ∷ "adm" ∷ "domain admins" ∷ "administrators" ∷ []

-- The groups of a raw account: one text, or a list.
pub data Groups : Type 0 where
  one_text : String → Groups
  listed : List String → Groups

pub record RawAccount : Type 0 where
  pub username : String
  pub uid : String
  pub gid : String
  pub shell : String
  pub home : String
  pub directory : String
  pub groups : Groups
  pub sudo : Bool
  pub is_sudo : Bool
  pub disabled : Bool
  pub last_login : String
  pub last_login_at : String
  pub pwd_last_change : String
  pub password_last_set : String
  pub source : Option String

-- `None` is "" here.
pub record Account : Type 0 where
  pub username : String
  pub host_type : String
  pub uid : String
  pub gid : String
  pub shell : String
  pub home : String
  pub groups : List String
  pub is_privileged : Bool
  pub is_sudo : Bool
  pub disabled : Bool
  pub last_login : String
  pub pwd_last_change : String
  pub source : String

abbrev pub is_text : String → Bool
is_text s = not (s == "")

unfoldable pub group_list : Groups → List String
unfolding split_list strip
group_list (one_text s) = if s == "" then [] else select is_text (map strip (split_list s))
group_list (listed l) = l

-- `bool(xs & ys)`
abbrev pub meets : List String → List String → Bool
meets [] ys = false
meets (x ∷ xs) ys = contains ys x || meets xs ys

abbrev pub clean : String → String
clean s = lower (strip s)

unfoldable pub normalize_account : RawAccount → String → Account
unfolding group_list strip lower
normalize_account a host_type =
    let groups = group_list a.groups in
    let gl = map clean groups in
    let uid = strip a.uid in
    let is_sudo = a.sudo || a.is_sudo || meets gl ("sudo" ∷ "wheel" ∷ "admin" ∷ []) in
    record {
      username = strip a.username;
      host_type = host_type;
      uid = uid;
      gid = strip a.gid;
      shell = a.shell;
      home = or_text a.home a.directory;
      groups = groups;
      is_privileged = uid == "0" || is_sudo || meets gl priv_groups;
      is_sudo = is_sudo;
      disabled = a.disabled;
      last_login = or_text a.last_login a.last_login_at;
      pwd_last_change = or_text a.pwd_last_change a.password_last_set;
      source = or_value a.source "osquery";
    }

pub record DirectoryEntry : Type 0 where
  pub username : String
  pub status : String
  pub is_privileged : Bool

pub record AllowEntry : Type 0 where
  pub scope : String
  pub host_key : String
  pub username : String
  pub kind : String

-- The last entry of each user name, without the entries that have none.
unfoldable pub dir_by_user : List DirectoryEntry → Dict DirectoryEntry
unfolding put strip lower
dir_by_user directory =
    index_by (λ (d : DirectoryEntry). clean d.username)
      (select (λ (d : DirectoryEntry). is_text (clean d.username)) directory)

abbrev pub is_disabled : DirectoryEntry → Bool
is_disabled d = contains disabled_statuses (lower d.status)

abbrev pub is_leaver : Option DirectoryEntry → Bool
is_leaver none = false
is_leaver (some d) = is_disabled d

-- Whether one entry approves an account on a host: the tests of the loop.
abbrev pub allows : String → String → String → AllowEntry → Bool
allows username host_key kind a =
    clean a.username == clean username
    && not (a.scope == "host" && not (a.host_key == host_key))
    && not (kind == "sudo" && not (a.kind == "sudo"))

unfoldable pub approved : List AllowEntry → String → String → String → Bool
approved [] username host_key kind = false
approved (a ∷ approvals) username host_key kind =
    let rest = approved approvals username host_key kind in
    if allows username host_key kind a then true else rest

pub record Row : Type 0 where
  pub host_key : String
  pub account : Account
  pub in_directory : Bool
  pub login_age_days : Option ℕ
  pub findings : List String

abbrev pub tag : Bool → String → List String
tag b kind = if b then kind ∷ [] else []

-- `sorted(host_accounts.items())`; the keys of a dict differ.
unfoldable pub insert_host : String × List Account → Dict (List Account) → Dict (List Account)
unfolding text_lt
insert_host h [] = h ∷ []
insert_host h (g ∷ r) =
    let rest = insert_host h r in if text_lt g.0 h.0 then g ∷ rest else h ∷ g ∷ r

unfoldable pub sort_hosts : Dict (List Account) → Dict (List Account)
unfolding insert_host
sort_hosts [] = []
sort_hosts (h ∷ r) = insert_host h (sort_hosts r)

pub record Tallies : Type 0 where
  pub counts : Dict ℕ
  pub findings : Dict (List Row)

-- `counts[t] += 1`, and the row goes to the list of `t` while that has fewer than 200.
abbrev pub note_finding : Row → Tallies → String → Tallies
note_finding row s t =
    let listed = or_value (get s.findings t) [] in
    record {
      counts = bump s.counts t;
      findings =
          if ltb (length listed) 200 then put s.findings t (listed ++ row ∷ []) else s.findings;
    }

unfoldable pub note_tags : Row → Tallies → List String → Tallies
unfolding get put bump
note_tags row s [] = s
note_tags row s (t ∷ ts) = note_tags row (note_finding row s t) ts

unfoldable pub note_rows : Tallies → List Row → Tallies
unfolding note_tags
note_rows s [] = s
note_rows s (row ∷ rows) = note_rows (note_tags row s row.findings) rows

abbrev pub no_tallies : Tallies
no_tallies = record {
  counts = map (λ k. (k, 0)) finding_kinds;
  findings = map (λ k. (k, [])) finding_kinds;
}

pub record Reconciliation : Type 0 where
  pub accounts : List Row
  pub tallies : Tallies
  pub hosts : ℕ
  pub servers : ℕ
  pub pcs : ℕ
  pub privileged : ℕ
  pub directory : ℕ
  pub flagged : ℕ

-- Whether a host has an account of a type.
abbrev pub has_type : String → String × List Account → Bool
has_type t (host_key, accounts) = contains (map (λ (a : Account). a.host_type) accounts) t

abbrev pub is_flagged : Row → Bool
is_flagged row = elim row.findings [ [] ↦ false | _ ∷ _ ↦ true ]

-- `parse_iso` reads a time as a number of seconds, and is a parameter.
module _ (parse_iso : String → Option ℕ) (now dormant_days : ℕ) where
  abbrev pub age_days : String → Option ℕ
  age_days iso = elim (parse_iso iso) [ none ↦ none | some t ↦ some ((now - t) / 86400) ]

  abbrev pub is_dormant : Option ℕ → Bool
  is_dormant none = false
  is_dormant (some age) = ltb dormant_days age

  unfoldable pub review : Dict DirectoryEntry → List AllowEntry → String → Account → Row
  unfolding get strip lower approved
  review users approvals host_key a =
      let entry = get users (clean a.username) in
      let in_directory = is_some entry in
      let age = age_days a.last_login in
      record {
        host_key = host_key;
        account = a;
        in_directory = in_directory;
        login_age_days = age;
        findings =
            tag (is_leaver entry) "leaver"
            ++ tag
                (a.is_privileged
                  && not in_directory
                  && not (approved approvals a.username host_key "account"))
                "orphan_priv"
            ++ tag (a.is_sudo && not (approved approvals a.username host_key "sudo"))
                "unapproved_sudo"
            ++ tag (is_dormant age) "dormant";
      }

  unfoldable pub review_hosts :
      Dict DirectoryEntry → List AllowEntry → Dict (List Account) → List Row
  unfolding review
  review_hosts users approvals [] = []
  review_hosts users approvals ((host_key, accounts) ∷ r) =
      map (review users approvals host_key) accounts ++ review_hosts users approvals r

  unfoldable pub reconcile :
      Dict (List Account) → List DirectoryEntry → List AllowEntry → Reconciliation
  unfolding dir_by_user sort_hosts review_hosts note_rows
  reconcile host_accounts directory approvals =
      let users = dir_by_user directory in
      let rows = review_hosts users approvals (sort_hosts host_accounts) in
      record {
        accounts = rows;
        tallies = note_rows no_tallies rows;
        hosts = length host_accounts;
        servers = count_if (has_type "server") host_accounts;
        pcs = count_if (has_type "pc") host_accounts;
        privileged = count_if (λ (row : Row). row.account.is_privileged) rows;
        directory = length users;
        flagged = count_if is_flagged rows;
      }
