-- ===== src/Tests/CommandTests.antt =====
-- Runs of the commands on the small machine, and the theorems applied there.
use kblocker.Base.{
  ◌≡◌, refl, ◌⊎◌, ◌≢◌, inl, inr, none, some, true, false, List, [], ◌∷◌, ◌++◌, Text, lit, text_eq,
  text_eq_iff, contains, fields, digits_value, trim_space, split, has_suffix, trim_suffix, ◌∈◌, All,
  arith,
}
use kblocker.Base.Int.{pos}
use kblocker.Numbers.{itoa, atoi, mul64}
use kblocker.Schedule.{ScheduleBlock, Schedule, parse_hhmm, is_hour, is_minute, validate}
use kblocker.System.{Errno, enoent, ok, err, done, exit, final, Reply-cases}
use kblocker.Cli.{
  sysfs_base, sysfs, says_enabled, contains_byte, requires_root, module_loaded, read_sysfs,
  has_immutable, current_domains, is_key_file, fp_from_filename, is_fingerprint,
  read_key_from_sysfs, pgp_key_dir, dir_entries,
}
use kblocker.Cli.Attributes.{has_immutable_path}
use kblocker.Domains.{Net, do_add}
use kblocker.Domains.Guards.{IsBlocking}
use kblocker.Domains.Apply.{IsApplied, do_add-IsApplied}
use kblocker.Lock.Enable.{
  default_options, enable_options, write_configured_lists, start_block, do_enable,
}
use kblocker.Lock.Ciphers.{is_recipient}
use kblocker.Lock.Unlock.{pgp_on, parse_key_arg, find_key, decrypted_key, decrypt_first}
use kblocker.Lock.Guards.{IsActive, holders, lock_key, do_enable_armed}
use kblocker.Lock.Keys.{start_block_stranded}
use kblocker.Scheduler.{
  Codec, no_blocks, require_disabled_for_schedule, read_input, save_schedule, schedule_file,
  write_schedule, blocking_enabled, do_schedule_set,
}
use kblocker.Scheduler.Commands.{IsRenamed}
use kblocker.Tests.Machine.{Machine, lookup, machine}
use kblocker.Tests.Sample.{work, of_block, codec}

-- Nothing is on, one key file is named by no fingerprint, and the kernel would show a key.
abbrev pub quiet_box : Machine
quiet_box = record {
  files = [];
  clock = 0;
  keys = record { name = lit "me.asc"; is_dir = false } ∷ [];
  shown_key = lit "abc";
}

-- A block is on, and its key is with the holders.
abbrev pub locked_box : Machine
locked_box = record {
  files = (sysfs (lit "enabled"), lit "1 60") ∷ (sysfs (lit "pgp_active"), lit "1") ∷ [];
  clock = 0;
  keys = [];
  shown_key = lit "encrypted";
}

pub machine-loaded : (s : Machine) → module_loaded machine s ≡ true
unfolding module_loaded text_eq sysfs_base lit
machine-loaded s = refl

enabled-read : lookup locked_box.files (sysfs (lit "enabled")) ≡ ok (lit "1 60")
unfolding lookup text_eq sysfs sysfs_base lit
enabled-read = refl

one-says_enabled : says_enabled (lit "1 60") ≡ true
unfolding says_enabled fields split text_eq lit
one-says_enabled = refl

abbrev pub no_net : Net
no_net = record { parse_ip = λ s. none; parse_cidr = λ s. none }

-- No file says that blocking is on.
pub quiet_box-idle : ¬ IsBlocking machine quiet_box
unfolding lookup
quiet_box-idle (raw, r, on) = absurd (ground (arith, r))

do_add_example :
    ((lit "a.b" ∈ current_domains machine quiet_box)
      × (do_add machine (lit "a.b" ∷ []) quiet_box ≡ done tt quiet_box))
    ⊎ ((¬ (lit "a.b" ∈ current_domains machine quiet_box))
        × IsApplied machine
            (current_domains machine quiet_box ++ (lit "a.b" ∷ []))
            quiet_box
            (do_add machine (lit "a.b" ∷ []) quiet_box))
do_add_example =
    do_add-IsApplied machine (lit "a.b") quiet_box (refl, machine-loaded quiet_box, quiet_box-idle)

locked_box-read : read_sysfs machine locked_box (sysfs (lit "enabled")) ≡ ok (lit "1 60")
unfolding read_sysfs lookup text_eq sysfs sysfs_base lit trim_space
locked_box-read = refl

locked_box-pgp_on : pgp_on machine locked_box ≡ true
unfolding pgp_on read_sysfs lookup text_eq sysfs sysfs_base lit trim_space
locked_box-pgp_on = refl

no_key-parsed : parse_key_arg machine [] locked_box ≡ done [] locked_box
unfolding parse_key_arg
no_key-parsed = refl

no_key-found : find_key machine [] locked_box ≡ done [] locked_box
unfolding find_key decrypted_key dir_entries decrypt_first
no_key-found = refl

pub key-parsed :
    parse_key_arg machine (lit "--key" ∷ lit "ff" ∷ []) locked_box ≡ done (lit "ff") locked_box
unfolding parse_key_arg text_eq lit
key-parsed = refl

ff-nonempty : lit "ff" ≢ []
unfolding lit
ff-nonempty e = cc

quiet_box-unread : read_sysfs machine quiet_box (sysfs (lit "enabled")) ≡ err enoent
unfolding read_sysfs lookup
quiet_box-unread = refl

quiet_box-inactive : ¬ IsActive machine quiet_box
quiet_box-inactive (raw, r, on) = absurd (ground (arith, quiet_box-unread, r))

five-secure : (enable_options default_options (lit "5" ∷ [])).insecure ≡ false
unfolding enable_options text_eq lit atoi digits_value
five-secure = refl

do_enable_armed_example :
    (s1 : Machine) × (write_configured_lists machine quiet_box ≡ done tt s1)
    × (((holders machine s1 ≢ 0)
          × ((lock_key machine s1).0 ≡ ok tt)
          × (do_enable machine (lit "5" ∷ []) quiet_box
              ≡ start_block machine
                  (enable_options default_options (lit "5" ∷ []))
                  (lock_key machine s1).1))
        ⊎ (((holders machine s1 ≡ 0) × (do_enable machine (lit "5" ∷ []) quiet_box ≡ exit 1 s1))
            ⊎ ((holders machine s1 ≢ 0)
                × ((e : Errno) × ((lock_key machine s1).0 ≡ err e))
                × (do_enable machine (lit "5" ∷ []) quiet_box ≡ exit 1 (lock_key machine s1).1))))
do_enable_armed_example =
    do_enable_armed machine (lit "5" ∷ []) quiet_box refl (machine-loaded quiet_box)
      quiet_box-inactive five-secure

-- The machine after the write to `enabled`, and after the key has been read.
abbrev started_box : Machine
started_box = record quiet_box { files = (sysfs (lit "enabled"), itoa (mul64 (pos 60) 60)) ∷ [] }

abbrev shown_box : Machine
shown_box = record started_box { shown_key = lit "encrypted" }

abc-shown : read_key_from_sysfs machine started_box ≡ done (lit "abc") shown_box
unfolding read_key_from_sysfs text_eq lit trim_space
abc-shown = refl

me-unnamed : All (λ e. is_recipient e ≡ false) quiet_box.keys
unfolding is_recipient is_key_file fp_from_filename is_fingerprint has_suffix trim_suffix text_eq
    lit
me-unnamed = (refl, tt)

abc-nonempty : lit "abc" ≢ []
unfolding lit
abc-nonempty e = cc

shown_box-unnamed :
    All
      (λ e. is_recipient e ≡ false)
      (dir_entries machine shown_box (pgp_key_dir machine shown_box))
unfolding dir_entries
shown_box-unnamed = me-unnamed

start_block_stranded_example : start_block machine default_options quiet_box ≡ exit 1 shown_box
start_block_stranded_example =
    start_block_stranded machine default_options (lit "abc") quiet_box started_box shown_box refl
      refl abc-shown abc-nonempty shown_box-unnamed

i-found : contains_byte b'i' (lit "/lib/a") ≡ true
unfolding contains_byte lit
i-found = refl

has_immutable_example : has_immutable machine (lit "/lib/a") quiet_box ≡ done true quiet_box
has_immutable_example =
    has_immutable_path machine (lit "/lib/a") (lit "----") quiet_box quiet_box refl refl i-found

pub locked_box-enabled : blocking_enabled machine (codec (of_block work)) locked_box ≡ true
unfolding blocking_enabled read_sysfs lookup text_eq sysfs sysfs_base lit trim_space says_enabled
    fields
locked_box-enabled = refl

-- A file that holds the sample's schedule, and the state after it has been set.
abbrev set_box : Machine
set_box = record quiet_box { files = (lit "x.json", []) ∷ [] }

abbrev saved_box : Machine
saved_box = record set_box {
  files = (schedule_file, []) ∷ (schedule_file ++ lit ".tmp", []) ∷ (lit "x.json", []) ∷ [];
}

file-named : lit "x.json" ≢ lit "-"
unfolding lit
file-named e = absurd (ground (arith, e))

work-set :
    do_schedule_set machine (codec (of_block work)) (lit "x.json" ∷ []) set_box ≡ done tt saved_box
unfolding do_schedule_set requires_root require_disabled_for_schedule blocking_enabled read_sysfs
    lookup text_eq sysfs sysfs_base read_input save_schedule write_schedule validate contains
    parse_hhmm is_hour is_minute schedule_file lit
work-set = refl

machine-IsRenamed : (from to : Text) → IsRenamed machine from to
unfolding lookup
machine-IsRenamed from to = record {
  rename-read = λ s moved. elim (Reply-cases (lookup s.files from)) [
    | inl (e, p) ↦ absurd (ground (arith, p))
    | inr (text, p) ↦ ground (arith, p, text_eq_iff to to)
  ];
}

-- A codec of the empty schedule alone.
abbrev pub empty_codec : Codec
empty_codec = record {
  decode = λ text. some no_blocks;
  encode = λ sched. elim sched.blocks [ [] ↦ some (lit "{}") | b ∷ bs ↦ none ];
}

empty_blocks :
    (bs : List ScheduleBlock) (text : Text)
    → empty_codec.encode (record { blocks = bs }) ≡ some text
    → some no_blocks ≡ some (record { blocks = bs })
empty_blocks [] text h = refl
empty_blocks (b ∷ bs) text h = cc

empty_codec-round_trip :
    (x : Schedule) (text : Text)
    → empty_codec.encode x ≡ some text
    → empty_codec.decode text ≡ some x
empty_codec-round_trip x text h = empty_blocks x.blocks text h

abbrev cleared_box : Machine
cleared_box = final (write_schedule machine empty_codec no_blocks quiet_box)

empty-written : write_schedule machine empty_codec no_blocks quiet_box ≡ done true cleared_box
unfolding write_schedule lookup text_eq schedule_file lit
empty-written = refl
