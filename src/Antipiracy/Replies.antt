-- ===== src/Antipiracy/Replies.antt =====
-- `cd_check_op` of docs/ap_v2.c on what the drive answers.
use tonyhax.Base.{
  ℕ, zero, suc, ◌+◌, ◌%◌, ◌≤◌, ◌<◌, ◌≡◌, ◌≢◌, refl, sym, ap, ◌∙◌, arith, bit_and, true, false, not,
  ◌||◌, ◌==◌, ltb, if◌then◌else◌, List, [], ◌∷◌, ◌++◌, append_assoc, append-nil, Bool-cases, inl,
  inr, Bytes, length, Memory, store8, store32, u32,
}
use tonyhax.Base.Bits.{bit_and_mask}
use tonyhax.Machine.{Machine, read, done, M, pure, ◌>>=◌, ◌>>◌}
use tonyhax.Cdrom.{accessed, write_reg, cd_set_page, has}
use tonyhax.Patcher.{copy_bytes}
use tonyhax.Antipiracy.{
  Ret, tray_open, fail, continue, success, Op, subfunc_y, Drive, cd_operations, number, read_next,
  read_reg, waste_cycles, waste_write, read_loop, restore_interrupts, failed_op, completed_op,
  acknowledged_op, cd_check_op,
}

-- The action reads these values from the drive's registers and returns this result.
abbrev Takes {ℓ} : {A : Type ℓ} → M A → List ℕ → A → Type ℓ
Takes p used a =
    (m : Machine) (left : List ℕ)
    → m.cd.replies ≡ used ++ left
    → (m' : Machine) × (p m ≡ done a m') × (m'.cd.replies ≡ left)

pure-Takes {ℓ} : {A : Type ℓ} (a : A) → Takes (pure a) [] a
pure-Takes a m left e = (m, refl, e)

>>=-Takes {ℓ κ} :
    {A : Type ℓ} {B : Type κ} (p : M A) (f : A → M B) (u u' : List ℕ) (a : A) (b : B)
    → Takes p u a
    → Takes (f a) u' b
    → Takes (p >>= f) (u ++ u') b
>>=-Takes p f u u' a b h k m left e =
    let (m1, r, rest) = h m (u' ++ left) (e ∙ append_assoc u u' left) in
    let (m2, r', rest') = k m1 left rest in (m2, rw (r, ◌>>=◌) r', rest')

>>-Takes {ℓ} :
    {B : Type ℓ} (p : M (Unit {0})) (q : M B) (u : List ℕ) (b : B)
    → Takes p [] tt
    → Takes q u b
    → Takes (p >> q) u b
>>-Takes p q u b h k = >>=-Takes p (λ _. q) [] u tt b h k

Takes-nil {ℓ} : {A : Type ℓ} (p : M A) (u : List ℕ) (a : A) → Takes p (u ++ []) a → Takes p u a
Takes-nil p u a h m left e = h m left (e ∙ ap (λ (v : List ℕ). v ++ left) (sym (append-nil u)))

write_reg-Takes : (reg v : ℕ) → Takes (write_reg reg v) [] tt
unfolding write_reg
write_reg-Takes reg v m left e = (_, refl, e)

cd_set_page-Takes : (page : ℕ) → Takes (cd_set_page page) [] tt
unfolding cd_set_page
cd_set_page-Takes page = write_reg-Takes 0 page

waste_cycles-Takes : (n i : ℕ) → Takes (waste_cycles n i) [] tt
unfolding waste_cycles
waste_cycles-Takes zero i = pure-Takes tt
waste_cycles-Takes (suc n) i =
    >>-Takes (waste_write i) _ [] tt (λ m left e. (record m { mem = store32 0 i (m.mem) }, refl, e))
      (waste_cycles-Takes n (i + 1))

read_reg-Takes : (reg v : ℕ) → Takes (read_reg reg) (v ∷ []) v
unfolding read_reg read_next
read_reg-Takes reg v m left e = (accessed (read reg v) left m, rw e refl, refl)

read_loop-Takes :
    (bs : Bytes) (i : ℕ) (buf : Memory)
    → Takes (read_loop (length bs) i buf) bs (copy_bytes i bs buf)
unfolding read_loop copy_bytes
read_loop-Takes [] i buf = pure-Takes buf
read_loop-Takes (b ∷ bs) i buf =
    >>=-Takes (read_reg 1) _ (b ∷ []) bs b _ (read_reg-Takes 1 b)
      (read_loop-Takes bs (i + 1) (store8 i b buf))

restore_interrupts-Takes : Takes restore_interrupts [] tt
unfolding restore_interrupts
restore_interrupts-Takes =
    >>-Takes (cd_set_page 1) _ [] tt (cd_set_page-Takes 1) (write_reg-Takes 2 0x1F)

-- The operation whose number is the command of `CD_OP_INIT`.
number_10 : (op : Op) → op ≢ subfunc_y → (number op == 0x0A) ≡ false
unfolding number
number_10 Op.get_status h = refl
number_10 Op.get_tn h = refl
number_10 Op.get_td h = refl
number_10 Op.set_location h = refl
number_10 Op.seek_audio h = refl
number_10 Op.set_mode h = refl
number_10 Op.init h = refl
number_10 Op.mute h = refl
number_10 Op.play h = refl
number_10 Op.subfunc_x h = refl
number_10 Op.subfunc_y h = absurd (h refl)
number_10 Op.pause h = refl
number_10 Op.read_toc h = refl
number_10 Op.get_id h = refl

-- The result that the status byte decides.
abbrev pub status_of : Memory → Ret → Ret
status_of buf ret = if has (buf 0) 0x10 then tray_open else ret

abbrev pub finished : Ret → Memory → Ret × Drive
finished ret buf = (status_of buf ret, record { cd_ackd_ints = 0; cd_reply_buf = buf })

completed_op-Takes :
    (op : Op) (buf : Memory) (bs : Bytes)
    → length bs ≡ (cd_operations op).reply_len
    → op ≢ subfunc_y
    → Takes (completed_op op buf) bs (finished success (copy_bytes 0 bs buf))
unfolding completed_op
completed_op-Takes op buf bs e other =
    let plain = number_10 op other in
    rw (sym e, plain)
      (Takes-nil _ bs _ (
        >>=-Takes (read_loop (length bs) 0 buf) _ bs [] (copy_bytes 0 bs buf) _
          (read_loop-Takes bs 0 buf)
          (>>-Takes restore_interrupts _ [] _ restore_interrupts-Takes (pure-Takes _))))

failed_op-Takes :
    (buf : Memory) (bs : Bytes)
    → length bs ≡ 2
    → Takes (failed_op buf) bs (finished fail (copy_bytes 0 bs buf))
unfolding failed_op
failed_op-Takes buf bs e =
    let reads : Takes (read_loop 2 0 buf) bs (copy_bytes 0 bs buf) =
      rw e at (read_loop-Takes bs 0 buf) in
    Takes-nil _ bs _ (
      >>=-Takes (read_loop 2 0 buf) _ bs [] (copy_bytes 0 bs buf) _ reads
        (>>-Takes restore_interrupts _ [] _ restore_interrupts-Takes (pure-Takes _)))

-- The acknowledgement, and what follows it.
acknowledged_op-Takes :
    (op : Op) (drive : Drive) (curints : ℕ) (u : List ℕ) (r : Ret × Drive)
    → Takes
        (if ltb (u32 (drive.cd_ackd_ints + curints)) ((cd_operations op).expected_ints)
          then pure (continue, record drive { cd_ackd_ints = u32 (drive.cd_ackd_ints + curints) })
          else if curints == 5
          then failed_op (drive.cd_reply_buf)
          else completed_op op (drive.cd_reply_buf))
        u
        r
    → Takes (acknowledged_op op drive curints) u r
unfolding acknowledged_op
acknowledged_op-Takes op drive curints u r h =
    >>-Takes (cd_set_page 1) _ u r (cd_set_page-Takes 1) (
      >>-Takes (write_reg 3 0x07) _ u r (write_reg-Takes 3 0x07)
        (>>-Takes (waste_cycles 4 0) _ u r (waste_cycles-Takes 4 0) h))

-- Two equal reads of the interrupt register.
cd_check_op-Takes :
    (op : Op) (drive : Drive) (flag : ℕ) (u : List ℕ) (r : Ret × Drive)
    → bit_and flag 7 ≢ 0
    → Takes (acknowledged_op op drive (bit_and flag 7)) u r
    → Takes (cd_check_op op drive) (flag ∷ flag ∷ u) r
unfolding cd_check_op
cd_check_op-Takes op drive flag u r h k =
    let raised : (not (bit_and flag 7 == bit_and flag 7) || bit_and flag 7 == 0) ≡ false =
      ground arith in
    >>-Takes (cd_set_page 1) _ (flag ∷ flag ∷ u) r (cd_set_page-Takes 1) (
      >>=-Takes (read_reg 3) _ (flag ∷ []) (flag ∷ u) flag r (read_reg-Takes 3 flag)
        (>>=-Takes (read_reg 3) _ (flag ∷ []) u flag r (read_reg-Takes 3 flag) (rw raised k)))

expected_ints-le : (op : Op) → (cd_operations op).expected_ints ≤ 5
unfolding cd_operations
expected_ints-le op = ground arith

-- The two ways to end, by the last interrupt.
ended_op-Takes :
    (op : Op) (drive : Drive) (curints : ℕ) (bs : Bytes)
    → op ≢ subfunc_y
    → length bs ≡ (if curints == 5 then 2 else (cd_operations op).reply_len)
    → Takes
        (if curints == 5
          then failed_op (drive.cd_reply_buf)
          else completed_op op (drive.cd_reply_buf))
        bs
        (finished (if curints == 5 then fail else success) (copy_bytes 0 bs (drive.cd_reply_buf)))
ended_op-Takes op drive curints bs other l = elim (Bool-cases (curints == 5)) [
  | inl five ↦ rw five (failed_op-Takes (drive.cd_reply_buf) bs (l ∙ rw five refl))
  | inr other_int ↦
      rw other_int (completed_op-Takes op (drive.cd_reply_buf) bs (l ∙ rw other_int refl) other)
]

-- An interrupt that does not bring the sum of the acknowledged ones up to the number that the operation
-- expects is acknowledged and added to them, and the operation goes on: no byte of a reply is read.
pub cd_check_op_continues :
    (op : Op) (drive : Drive) (flag : ℕ) (m : Machine) (left : List ℕ)
    → flag % 8 ≢ 0
    → drive.cd_ackd_ints + flag % 8 < (cd_operations op).expected_ints
    → m.cd.replies ≡ flag ∷ flag ∷ left
    → (m' : Machine) × (cd_check_op op drive m
        ≡ done (continue, record drive { cd_ackd_ints = drive.cd_ackd_ints + flag % 8 }) m')
      × (m'.cd.replies ≡ left)
cd_check_op_continues op drive flag m left h short e =
    let masked : bit_and flag 7 ≡ flag % 8 = bit_and_mask 3 flag in
    let sum : u32 (drive.cd_ackd_ints + flag % 8) ≡ drive.cd_ackd_ints + flag % 8 =
      omega (arith, expected_ints-le op) in
    let below : ltb (drive.cd_ackd_ints + flag % 8) ((cd_operations op).expected_ints) ≡ true =
      ground arith in
    cd_check_op-Takes op drive flag [] _ (rw masked h)
      (rw masked (acknowledged_op-Takes op drive (flag % 8) [] _ (rw (sum, below) (pure-Takes _))))
      m left e

-- The interrupt that brings the sum up to it completes the operation. Its reply is read into the buffer,
-- two bytes of it for an INT5 and as many as the operation names otherwise, and the sum is 0 again. The
-- result is that the lid is open when bit 4 of the first byte is set, a failure for an INT5, and a success
-- for any other interrupt. That holds of all operations but `CD_OP_SUBFUNC_Y`, so of `CD_OP_INIT` too.
pub cd_check_op_completes :
    (op : Op) (drive : Drive) (flag : ℕ) (bs : Bytes) (m : Machine) (left : List ℕ)
    → op ≢ subfunc_y
    → drive.cd_ackd_ints < 8
    → flag % 8 ≢ 0
    → (cd_operations op).expected_ints ≤ drive.cd_ackd_ints + flag % 8
    → length bs ≡ (if flag % 8 == 5 then 2 else (cd_operations op).reply_len)
    → m.cd.replies ≡ flag ∷ flag ∷ (bs ++ left)
    → (m' : Machine) × (cd_check_op op drive m
        ≡ done
            (finished
              (if flag % 8 == 5 then fail else success)
              (copy_bytes 0 bs (drive.cd_reply_buf)))
            m')
      × (m'.cd.replies ≡ left)
cd_check_op_completes op drive flag bs m left other small h enough l e =
    let masked : bit_and flag 7 ≡ flag % 8 = bit_and_mask 3 flag in
    let sum : u32 (drive.cd_ackd_ints + flag % 8) ≡ drive.cd_ackd_ints + flag % 8 = omega arith in
    let reached : ltb (drive.cd_ackd_ints + flag % 8) ((cd_operations op).expected_ints) ≡ false =
      ground arith in
    cd_check_op-Takes op drive flag bs _ (rw masked h)
      (rw masked (
        acknowledged_op-Takes op drive (flag % 8) bs _
          (rw (sum, reached) (ended_op-Takes op drive (flag % 8) bs other l))))
      m left e
