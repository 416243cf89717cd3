-- ===== src/User/Key.antt =====
-- ipc_ftok over the character device: the key that a process gets, and the key that it hands back.
use ipc_msq_multicore.Common.{
  ℕ, zero, suc, ◌+◌, ◌^◌, ◌<◌, ◌≡◌, ◌≢◌, refl, Bool, true, false, Option, none, some, List, [], ◌∷◌,
  ◌++◌, arith, All, take, drop, replicate, set, ap, ◌∙◌, pos, negsuc, ℤ, is_negative, ◌==◌, get_or,
  Bool-cases, inl, inr,
}
use ipc_msq_multicore.Common.Bytes.{cstr, strncpy}
use ipc_msq_multicore.Common.Outcome.{done, ◌>>=◌, spin_lock, spin_unlock}
use ipc_msq_multicore.Name.{namehash, hash_from, hash_step}
use ipc_msq_multicore.Msqinfo.{Msqinfo, Kernel, token_max}
use ipc_msq_multicore.Table.{get_id_by_key, ftok, fill_token, locked, unlocked, with_info}
use ipc_msq_multicore.Main.{
  get_req, ioctl_get, note_id, send_back, set_bit, Driver, Env, ftok_req, with_kernel, ioctl,
  handle, ioctl_ftok,
}
use ipc_msq_multicore.User.{
  Uninit, Process, to_int16, to_uint16, path_of, ipc_open, ipc_ftok, ipc_msg_get, counted,
}
use ipc_msq_multicore.User.Driver.{
  Files, driver_device, file_of, on_file, keep_file, entry-set_self,
}

-- A key goes from the driver to the process and back unchanged.
pub key_round_trip : (k : ℕ) → k < 2 ^ 16 → to_uint16 (to_int16 k) ≡ k
key_round_trip k h = ground arith

cstr-set_end :
    (n m : ℕ) (p r : List ℕ)
    → All (λ c. c ≢ 0) p
    → cstr (set (take (suc n) (p ++ replicate (suc m) 0) ++ r) n 0) ≡ some (take n p)
unfolding cstr
cstr-set_end zero m [] r h = refl
cstr-set_end zero m (c ∷ p) r h = refl
cstr-set_end (suc n) m [] r h = refl
cstr-set_end (suc n) m (c ∷ p) r h = ground (arith, h.0, cstr-set_end n m p r h.1)

-- What the message of ipc_ftok holds: the first 32 characters of the path.
cstr-path_of :
    (u : Uninit) (path : List ℕ)
    → All (λ c. c ≢ 0) path
    → cstr (path_of u path) ≡ some (take token_max path)
unfolding strncpy
cstr-path_of u path h = cstr-set_end token_max token_max path (drop (token_max + 1) u.path) h

fill_token_total :
    (p : List ℕ) (ts : List (List ℕ)) → (us : List (List ℕ)) × (fill_token (some p) ts ≡ done us)
unfolding fill_token
fill_token_total p [] = ([], refl)
fill_token_total p (t ∷ ts) = elim (Bool-cases (get_or t 0 0 == 0)) [
  | inl empty ↦ (strncpy t p token_max ∷ ts, rw empty refl)
  | inr taken ↦ let (us, e) = fill_token_total p ts in (t ∷ us, rw (taken, e) refl)
]

ftok_total :
    (p : List ℕ) (k : Kernel) {m : Msqinfo}
    → k.info ≡ some m
    → (k' : Kernel) × (ftok (some p) k ≡ done (namehash (some p), k'))
unfolding ftok
ftok_total p k {m} here =
    let (us, e) = fill_token_total p m.tokens in
    (unlocked (with_info (record m { tokens = us }) (locked k)), ground (arith, e))

-- Once the queues are set up, and if the copies succeed and ipc_ioctl happens to end with a result
-- that is not negative, the ioctl for a key answers with the hash of the string in the message.
ioctl_ftok_total :
    (e : Env) (path name : List ℕ) (rtn_key : ℕ) (d : Driver) {m : Msqinfo}
    → e.copy_in ≡ true
    → e.copy_out ≡ true
    → d.sys.kernel.info ≡ some m
    → cstr path ≡ some name
    → (d' : Driver) × (ioctl e (ftok_req path rtn_key) d
        ≡ done (e.no_return, ftok_req path (namehash (some name)), d'))
      × (d'.mutex ≡ d.mutex)
      × (d'.file ≡ d.file)
unfolding ioctl handle ioctl_ftok
ioctl_ftok_total e path name rtn_key d into out here held =
    let (k', got) = ftok_total name d.sys.kernel here in
    (with_kernel d k', ground (arith, got), refl, refl)

hash_from-lt : (hash : ℕ) (cs : List ℕ) → hash < 2 ^ 16 → hash_from hash cs < 2 ^ 16
unfolding hash_from hash_step
hash_from-lt hash [] h = h
hash_from-lt hash (c ∷ cs) h = hash_from-lt (hash_step hash c) cs (omega arith)

namehash-lt : (name : Option (List ℕ)) → namehash name < 2 ^ 16
unfolding namehash
namehash-lt none = omega arith
namehash-lt (some name) = hash_from-lt 0 name (omega arith)

ioctl-get_req :
    (e : Env) (key : ℕ) (rtn : ℤ) (bits : ℕ) (d : Driver)
    → e.copy_in ≡ true
    → d.file ≡ some bits
    → ioctl e (get_req key rtn) d ≡ (
        note_id bits (get_id_by_key key d.sys.kernel) d >>= λ d'.
        send_back e (get_req key rtn) (get_req key (get_id_by_key key d.sys.kernel)) d')
unfolding ioctl handle ioctl_get
ioctl-get_req e key rtn bits d into file = ground arith

note_id_total :
    (e : Env) (key : ℕ) (rtn id : ℤ) (bits : ℕ) (d : Driver)
    → e.copy_out ≡ true
    → d.mutex ≡ false
    → (d' : Driver) × ((note_id bits id d >>= λ d'.
          send_back e (get_req key rtn) (get_req key id) d')
        ≡ done (e.no_return, get_req key id, d'))
note_id_total e key rtn (negsuc n) bits d out idle = (d, ground arith)
note_id_total e key rtn (pos i) bits d out idle =
    (record d { mutex = false; file = some (set_bit bits i) }, ground arith)

-- The ioctl for an id answers with what the driver finds for the key.
ioctl_get_total :
    (e : Env) (key : ℕ) (rtn : ℤ) (bits : ℕ) (d : Driver)
    → e.copy_in ≡ true
    → e.copy_out ≡ true
    → d.file ≡ some bits
    → d.mutex ≡ false
    → (d' : Driver) × (ioctl e (get_req key rtn) d
        ≡ done (e.no_return, get_req key (get_id_by_key key d.sys.kernel), d'))
ioctl_get_total e key rtn bits d into out file idle =
    let (d', noted) = note_id_total e key rtn (get_id_by_key key d.sys.kernel) bits d out idle in
    (d', ioctl-get_req e key rtn bits d into file ∙ noted)

file_of-keep :
    (fd : ℤ) (d : Driver) (s : Files) {bits : ℕ}
    → file_of s.files fd ≡ some bits
    → file_of (keep_file fd d s).files fd ≡ d.file
file_of-keep (pos i) d s open_fd = entry-set_self s.files i d.file open_fd
file_of-keep (negsuc n) d s open_fd = absurd (cc (open_fd))

driver-keep : (fd : ℤ) (d : Driver) (s : Files) → (keep_file fd d s).driver ≡ d
driver-keep (pos i) d s = refl
driver-keep (negsuc n) d s = refl

module _ (e : Env) (allocated : Bool) (ret : ℤ) where
  -- ipc_msg_get hands the key to the driver and gives back the driver's id.
  get_finds :
      (u : Uninit) (key : ℤ) (p : Process (driver_device e allocated ret)) {bits : ℕ}
      → e.copy_in ≡ true
      → e.copy_out ≡ true
      → is_negative e.no_return ≡ false
      → is_negative p.ipcfd ≡ false
      → file_of p.device.files p.ipcfd ≡ some bits
      → p.device.driver.mutex ≡ false
      → (p' : Process (driver_device e allocated ret)) × (ipc_msg_get
            (driver_device e allocated ret)
            u
            key
            p
          ≡ done (get_id_by_key (to_uint16 key) p.device.driver.sys.kernel, p'))
  unfolding ipc_msg_get ipc_open
  get_finds u key p {bits} into out ends open_fd file idle =
      let (d', got) =
        ioctl_get_total e (to_uint16 key) u.rtn bits (on_file bits p.device) into out refl idle in
      let back : Process (driver_device e allocated ret) = record p {
        mutex = spin_unlock (spin_lock p.mutex);
        device = keep_file p.ipcfd d' p.device;
      } in
      (
        counted (driver_device e allocated ret)
            (get_id_by_key (to_uint16 key) p.device.driver.sys.kernel) back,
        ground (arith, got),
      )

-- On a process with an open descriptor, when the queues are set up, the driver's mutex is free, the
-- copies succeed and ipc_ioctl happens to end with a result that is not negative, ipc_ftok returns the
-- hash of the first 32 characters of the path, and a call of ipc_msg_get with it then returns what the
-- driver finds for this hash.
pub ftok_hashes :
    (e : Env) (allocated : Bool) (ret : ℤ) (u : Uninit) (path : List ℕ)
    (p : Process (driver_device e allocated ret)) {m : Msqinfo} {bits : ℕ}
    → e.copy_in ≡ true
    → e.copy_out ≡ true
    → is_negative e.no_return ≡ false
    → is_negative p.ipcfd ≡ false
    → file_of p.device.files p.ipcfd ≡ some bits
    → p.device.driver.mutex ≡ false
    → p.device.driver.sys.kernel.info ≡ some m
    → All (λ c. c ≢ 0) path
    → let key = namehash (some (take token_max path)) in
      let D = driver_device e allocated ret in
      (p' : Process D) × (ipc_ftok D u (some path) p ≡ done (to_int16 key, p'))
      × ((v : Uninit)
          → (p'' : Process D) × (ipc_msg_get D v (to_int16 key) p'
              ≡ done (get_id_by_key key p'.device.driver.sys.kernel, p'')))
unfolding ipc_ftok ipc_open
ftok_hashes e allocated ret u path p {m} {bits} into out ends open_fd file idle here text =
    let (d', got, mutex, kept) =
      ioctl_ftok_total e (path_of u path) (take token_max path) u.rtn_key (on_file bits p.device)
        into out here (cstr-path_of u path text) in
    let key = namehash (some (take token_max path)) in
    let p' : Process (driver_device e allocated ret) = record p {
      mutex = spin_unlock (spin_lock p.mutex);
      device = keep_file p.ipcfd d' p.device;
    } in
    (
      p',
      ground (arith, got),
      λ v.
          let (p'', found) =
            get_finds e allocated ret v (to_int16 key) p' into out ends open_fd
              (file_of-keep p.ipcfd d' p.device file ∙ kept)
              (ap (λ d. d.mutex) (driver-keep p.ipcfd d' p.device) ∙ mutex ∙ idle) in
          (
            p'',
            found
                ∙ ap (λ k. done (get_id_by_key k p'.device.driver.sys.kernel, p''))
                    (key_round_trip key (namehash-lt (some (take token_max path)))),
          ),
    )
