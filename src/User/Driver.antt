-- ===== src/User/Driver.antt =====
-- The character device behind the calls of the operating system: open files with their private data by
-- the number of their descriptor, over one driver.
use ipc_msq_multicore.Common.{
  ℕ, zero, suc, ◌≡◌, refl, ap, ◌∙◌, Bool, true, false, Option, none, some, List, [], ◌∷◌, ◌++◌,
  arith, ℤ, pos, negsuc, minus, is_negative, if◌then◌else◌, get_elem?, set, length,
}
use ipc_msq_multicore.Msqinfo.{queue_num}
use ipc_msq_multicore.Common.Outcome.{
  Outcome, done, ◌>>=◌, Ends, Ends-done, Ends-bind, Ends-any, Ends-option,
}
use ipc_msq_multicore.Main.{Driver, Env, Request, ioctl, open_file, release_file, release_from}
use ipc_msq_multicore.Main.Files.{is_some, ioctl-file}
use ipc_msq_multicore.Device.{Device, IsLawful}

-- `files` are the private data of the open files; a closed descriptor has none, since
-- no call reaches the file of a closed descriptor again. One environment serves all calls.
pub record Files : Type 0 where
  pub driver : Driver
  pub files : List (Option ℕ)

abbrev pub entry : List (Option ℕ) → ℕ → Option ℕ
entry fs i = elim (get_elem? fs i) [ none ↦ none | some f ↦ f ]

abbrev pub file_of : List (Option ℕ) → ℤ → Option ℕ
file_of fs (pos i) = entry fs i
file_of fs (negsuc n) = none

-- The driver as a call on the file with the private data `bits` finds it.
abbrev pub on_file : ℕ → Files → Driver
on_file bits s = record (s.driver) { file = some bits }

abbrev pub keep_file : ℤ → Driver → Files → Files
keep_file (pos i) d s = record { driver = d; files = set s.files i d.file }
keep_file (negsuc n) d s = record s { driver = d }

-- A negative result of the kernel is -1 for the process.
abbrev pub to_user : ℤ → ℤ
to_user ret = if is_negative ret then minus 1 else ret

abbrev open_next : ℤ × Driver → Files → ℤ × Files
open_next (ret, d) s =
    if is_negative ret
    then (minus 1, s)
    else (pos (length s.files), record { driver = d; files = s.files ++ (d.file ∷ []) })

abbrev close_at : ℤ → ℤ → Files → Outcome Files
close_at ret fd s = elim (file_of s.files fd) [
  | none ↦ done s
  | some bits ↦ release_file ret (on_file bits s) >>= λ r. done (keep_file fd r.1 s)
]

abbrev pub ioctl_at : Env → ℤ → Request → Files → Outcome (ℤ × Request × Files)
ioctl_at e fd r s = elim (file_of s.files fd) [
  | none ↦ done (minus 1, r, s)
  | some bits ↦ ioctl e r (on_file bits s) >>= λ a. done (to_user a.0, a.1, keep_file fd a.2 s)
]

-- `allocated` is whether kzalloc gives memory to ipc_open, `ret` the local variable of ipc_release.
abbrev pub driver_device : Env → Bool → ℤ → Device
driver_device e allocated ret = record {
  State = Files;
  open_file = λ s. open_next (open_file allocated s.driver) s;
  close_file = λ fd s. close_at ret fd s;
  ioctl = λ fd r s. ioctl_at e fd r s;
  is_open = λ s fd. is_some (file_of s.files fd);
}

entry-append : (fs : List (Option ℕ)) (f : Option ℕ) → entry (fs ++ (f ∷ [])) (length fs) ≡ f
entry-append [] f = refl
entry-append (g ∷ fs) f = entry-append fs f

entry-set :
    (fs : List (Option ℕ)) (i j : ℕ) (bits : ℕ) (f : Option ℕ)
    → entry fs i ≡ some bits
    → is_some f ≡ true
    → is_some (entry (set fs i f) j) ≡ is_some (entry fs j)
entry-set [] i j bits f e h = refl
entry-set (g ∷ fs) zero zero bits f e h = ground arith
entry-set (g ∷ fs) zero (suc j) bits f e h = refl
entry-set (g ∷ fs) (suc i) zero bits f e h = refl
entry-set (g ∷ fs) (suc i) (suc j) bits f e h = entry-set fs i j bits f e h

pub entry-set_self :
    (fs : List (Option ℕ)) (i : ℕ) (f : Option ℕ) {bits : ℕ}
    → entry fs i ≡ some bits
    → entry (set fs i f) i ≡ f
entry-set_self [] i f e = absurd (cc (e))
entry-set_self (g ∷ fs) zero f e = refl
entry-set_self (g ∷ fs) (suc i) f e = entry-set_self fs i f e

entry-set-none : (fs : List (Option ℕ)) (i : ℕ) → entry (set fs i none) i ≡ none
entry-set-none [] i = refl
entry-set-none (g ∷ fs) zero = refl
entry-set-none (g ∷ fs) (suc i) = entry-set-none fs i

opens_lem :
    (e : Env) (allocated : Bool) (ret : ℤ) (s : Files)
    → is_negative (open_next (open_file allocated s.driver) s).0 ≡ false
    → is_some (
        file_of
          (open_next (open_file allocated s.driver) s).1.files
          (open_next (open_file allocated s.driver) s).0)
      ≡ true
unfolding open_file
opens_lem e true ret s h = ap is_some (entry-append s.files (some 0))
opens_lem e false ret s h = absurd (cc)

-- ipc_release leaves no private data.
release-file :
    (ret : ℤ) (bits : ℕ) (s : Files)
    → Ends (λ r. r.1.file ≡ none) (release_file ret (on_file bits s))
unfolding release_file
release-file ret bits s =
    Ends-bind (λ _. Unit) (λ r. r.1.file ≡ none)
      (release_from queue_num 0 bits ret s.driver.sys.kernel) _
      (Ends-any (release_from queue_num 0 bits ret s.driver.sys.kernel)) (λ r _. refl)

module _ (ret : ℤ) (s : Files) where
  closes_lem : (fd : ℤ) → Ends (λ s'. is_some (file_of s'.files fd) ≡ false) (close_at ret fd s)
  closes_lem (negsuc n) = refl
  closes_lem (pos i) =
      let Shut = λ (s' : Files). is_some (entry s'.files i) ≡ false in
      Ends-option Shut (entry s.files i) _ _ (λ gone. ap is_some gone)
        (λ bits _.
          Ends-bind (λ r. r.1.file ≡ none) Shut (release_file ret (on_file bits s)) _
            (release-file ret bits s)
            (λ r none_left.
              ap (λ f. is_some (entry (set s.files i f) i)) none_left
              ∙ ap is_some (entry-set-none s.files i)))

file_of-set :
    (s : Files) (i : ℕ) (fd : ℤ) (bits : ℕ) (d : Driver)
    → entry s.files i ≡ some bits
    → is_some d.file ≡ true
    → is_some (file_of (set s.files i d.file) fd) ≡ is_some (file_of s.files fd)
file_of-set s i (negsuc n) bits d here kept = refl
file_of-set s i (pos j) bits d here kept = entry-set s.files i j bits d.file here kept

module _ (e : Env) (r : Request) (s : Files) where
  keeps_lem :
      (fd fd' : ℤ)
      → Ends
          (λ a. is_some (file_of a.2.files fd') ≡ is_some (file_of s.files fd'))
          (ioctl_at e fd r s)
  keeps_lem (negsuc n) fd' = refl
  keeps_lem (pos i) fd' =
      Ends-option Same (entry s.files i) _ _ (λ _. refl)
        (λ bits here.
          Ends-bind (λ a. is_some a.2.file ≡ true) Same (ioctl e r (on_file bits s)) _
            (ioctl-file e r (on_file bits s) refl)
            (λ a kept. file_of-set s i fd' bits a.2 here kept))
    where
      Same : ℤ × Request × Files → Type 0
      Same a = is_some (file_of a.2.files fd') ≡ is_some (file_of s.files fd')

refuses_lem :
    (e : Env) (r : Request) (s : Files) (fd : ℤ)
    → is_some (file_of s.files fd) ≡ false
    → ioctl_at e fd r s ≡ done (minus 1, r, s)
refuses_lem e r s fd shut = ground arith

-- The character device treats descriptors as documented.
pub driver_device-IsLawful :
    (e : Env) (allocated : Bool) (ret : ℤ) → IsLawful (driver_device e allocated ret)
driver_device-IsLawful e allocated ret = record {
  opens = λ s h. opens_lem e allocated ret s h;
  closes = λ fd s s' shut.
      Ends-done (λ s''. is_some (file_of s''.files fd) ≡ false) (closes_lem ret s fd) shut;
  keeps = λ fd fd' r r' n s s' called.
      Ends-done (λ a. is_some (file_of a.2.files fd') ≡ is_some (file_of s.files fd'))
        (keeps_lem e r s fd fd') called;
  refuses = λ fd r s shut. refuses_lem e r s fd shut;
}
