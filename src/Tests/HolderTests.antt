-- ===== src/Tests/HolderTests.antt =====
-- Runs of reset, of pgp-cipher and of the web handlers on the small machine, and the theorems applied
-- there.
use kblocker.Base.{◌≡◌, refl, ◌⊎◌, none, some, Bool, true, false, List, [], ◌∷◌, lit, text_eq}
use kblocker.System.{ok, done, exit}
use kblocker.Cli.{sysfs_base, read_sysfs, pgp_enc_dir, get_env_default}
use kblocker.Reset.{ResetOptions, no_options, reset_options, confirmed, reset_steps, do_reset}
use kblocker.Reset.Steps.{Ran, all_true, do_reset-Ran}
use kblocker.Scheduler.{blocking_enabled}
use kblocker.Http.{Web, Request}
use kblocker.Web.{with_same_origin, handle_unblock}
use kblocker.Web.Origin.{IsOwnHost, IsOwnOrigin, with_same_origin_lem}
use kblocker.Tests.Machine.{Machine, lookup, machine}
use kblocker.Tests.Sample.{work, of_block, codec}
use kblocker.Tests.CommandTests.{quiet_box, locked_box}

abbrev yes_options : ResetOptions
yes_options = record no_options { yes = true }

yes-parsed : reset_options no_options (lit "--yes" ∷ []) ≡ some yes_options
unfolding reset_options text_eq lit
yes-parsed = refl

yes-confirmed : confirmed machine yes_options quiet_box ≡ done true quiet_box
unfolding confirmed
yes-confirmed = refl

quiet_box-off : blocking_enabled machine (codec (of_block work)) quiet_box ≡ false
unfolding blocking_enabled read_sysfs lookup
quiet_box-off = refl

do_reset-Ran_example :
    (bs : List Bool) × (s2 : Machine) × Ran machine
      (reset_steps machine (codec (of_block work)) yes_options)
      quiet_box
      bs
      s2
    × (((all_true machine bs ≡ true)
          × (do_reset machine (codec (of_block work)) (lit "--yes" ∷ []) quiet_box ≡ done tt s2))
        ⊎ ((all_true machine bs ≡ false)
            × (do_reset machine (codec (of_block work)) (lit "--yes" ∷ []) quiet_box ≡ exit 1 s2)))
do_reset-Ran_example =
    do_reset-Ran machine (codec (of_block work)) (lit "--yes" ∷ []) yes_options quiet_box quiet_box
      refl quiet_box-off yes-parsed yes-confirmed

-- A directory that is there, with one ciphertext in it.
abbrev cipher_box : Machine
cipher_box = record {
  files =
      (lit "/var/lib/kblocker/unlock-pgp", [])
      ∷ (lit "/var/lib/kblocker/unlock-pgp/unlock-AB.asc", lit "secret")
      ∷ [];
  clock = 0;
  keys = record { name = lit "unlock-AB.asc"; is_dir = false } ∷ [];
  shown_key = [];
}

cipher_box-stat : machine.stat cipher_box (pgp_enc_dir machine cipher_box) ≡ ok false
unfolding lookup text_eq sysfs_base lit pgp_enc_dir get_env_default
cipher_box-stat = refl

abbrev pub web : Web
web = record {
  split_host_port = λ s. none;
  join_host_port = λ host port. host;
  is_ip = λ s. false;
  url_host = λ s. some s;
  request_key = λ s. some s;
  key_request = λ s. some (record { public_key = s; name = []; fingerprint = [] });
  to_json = λ json. [];
  page = λ name. name;
}

abbrev pub request : Request
request = record {
  method = lit "POST";
  path = lit "/api/unblock";
  host = lit "localhost";
  origin = lit "localhost";
  body = lit "ff";
}

with_same_origin_example :
    (IsOwnHost web request
      × IsOwnOrigin web request
      × (with_same_origin web (handle_unblock machine web) request locked_box
          ≡ handle_unblock machine web request locked_box))
    ⊎ (((¬ IsOwnHost web request)
          × (with_same_origin web (handle_unblock machine web) request locked_box
              ≡ done (record { status = 421; content = [] }) locked_box))
        ⊎ ((¬ IsOwnOrigin web request)
            × (with_same_origin web (handle_unblock machine web) request locked_box
                ≡ done (record { status = 403; content = [] }) locked_box)))
with_same_origin_example = with_same_origin_lem web (handle_unblock machine web) request locked_box
