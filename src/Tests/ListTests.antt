-- ===== src/Tests/ListTests.antt =====
-- The list files, allow-ip and unload on the small machine, and the theorems applied there.
use kblocker.Base.{
  ◌≡◌, refl, ◌≢◌, ◌⊎◌, none, false, [], ◌∷◌, ◌∈◌, lit, trim_space, has_prefix, arith,
}
use kblocker.System.{Errno, ok, err, done, exit}
use kblocker.Cli.{contains_byte}
use kblocker.Domains.{file_text, normalize_net}
use kblocker.Domains.ListFiles.{IsLine}
use kblocker.Lock.Unlock.{find_key, remove_module, do_unload}
use kblocker.Lock.Unload.{authorize, do_unload_lem}
use kblocker.Tests.Machine.{Machine, machine}
use kblocker.Tests.CommandTests.{quiet_box, locked_box, no_net, key-parsed}

-- A machine with a list of one line.
abbrev list_box : Machine
list_box = (machine.write_file (lit "/list") (file_text (lit "a.b" ∷ [])) quiet_box).1

site-nonempty : lit "a.b" ≢ []
unfolding lit
site-nonempty e = cc

site-trimmed : trim_space (lit "a.b") ≡ lit "a.b"
unfolding trim_space lit
site-trimmed = refl

site-no_comment : has_prefix (lit "a.b") (lit "#") ≡ false
unfolding has_prefix lit
site-no_comment = refl

site-one_line : ¬ (b'\n' ∈ lit "a.b")
unfolding lit
site-one_line m = absurd (ground (arith, m))

site-IsLine : IsLine (lit "a.b")
site-IsLine = record {
  nonempty = site-nonempty;
  trimmed = site-trimmed;
  no_comment = site-no_comment;
  one_line = site-one_line;
}

x-unknown : normalize_net no_net (lit "x") ≡ none
unfolding normalize_net contains_byte lit
x-unknown = refl

x-clear : lit "x" ≢ lit "--clear"
unfolding lit
x-clear e = absurd (ground (arith, e))

ff-found : find_key machine (lit "ff") locked_box ≡ done (lit "ff") locked_box
unfolding find_key lit
ff-found = refl

do_unload_example :
    ((lit "ff" ≡ [])
      × (do_unload machine (lit "--key" ∷ lit "ff" ∷ []) locked_box ≡ exit 1 locked_box))
    ⊎ (((lit "ff" ≢ [])
          × ((e : Errno) × ((authorize machine (lit "ff") locked_box).0 ≡ err e))
          × (do_unload machine (lit "--key" ∷ lit "ff" ∷ []) locked_box
              ≡ exit 1 (authorize machine (lit "ff") locked_box).1))
        ⊎ ((lit "ff" ≢ [])
            × ((authorize machine (lit "ff") locked_box).0 ≡ ok tt)
            × (do_unload machine (lit "--key" ∷ lit "ff" ∷ []) locked_box
                ≡ remove_module machine (authorize machine (lit "ff") locked_box).1)))
do_unload_example =
    do_unload_lem machine (lit "--key" ∷ lit "ff" ∷ []) (lit "ff") (lit "ff") locked_box locked_box
      locked_box refl key-parsed ff-found
