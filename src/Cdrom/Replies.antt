-- ===== src/Cdrom/Replies.antt =====
-- `cd_read_reply` of loader/cdrom.c against a reply in the FIFO.
use tonyhax.Base.{
  ℕ, zero, suc, ◌≤◌, ◌<◌, ◌≡◌, refl, ap, ◌∙◌, arith, true, false, List, [], ◌∷◌, ◌++◌, append-nil,
  append_assoc, u8, Bytes, length, All,
}
use mathlib.Core.Path.{ap₂}
use tonyhax.Cdrom.Runs.{
  after, after-append, Runs, >>=-Runs, Runs-used, Runs-made, pure-Runs, write_reg-Runs,
}
use tonyhax.Machine.{fault, ◌>>=◌, Machine, Access, write, read, done, pure}
use tonyhax.Cdrom.{write_reg, accessed, has, reply_loop, Reply, cd_read_reply, cd_set_page}

-- The bytes of a reply, each behind a status that announces it, and the status that ends it.
pub record Replies : Type 0 where
  pub announced : List (ℕ × ℕ)
  pub end : ℕ
  pub all_announced : All (λ r. has r.0 0x20 ≡ true) announced
  pub is_end : has end 0x20 ≡ false

abbrev pub reply_bytes : List (ℕ × ℕ) → Bytes
reply_bytes [] = []
reply_bytes ((s, b) ∷ rs) = b ∷ reply_bytes rs

abbrev pub announced_values : List (ℕ × ℕ) → ℕ → List ℕ
announced_values [] end = end ∷ []
announced_values ((s, b) ∷ rs) end = s ∷ b ∷ announced_values rs end

abbrev pub announced_reads : List (ℕ × ℕ) → ℕ → List Access
announced_reads [] end = read 0 end ∷ []
announced_reads ((s, b) ∷ rs) end = read 0 s ∷ read 1 b ∷ announced_reads rs end

reply_loop_end :
    (left : List ℕ) (end room : ℕ) (got : Bytes) (m : Machine)
    → has end 0x20 ≡ false
    → reply_loop (end ∷ left) room got m ≡ done got (accessed (read 0 end) left m)
unfolding reply_loop
reply_loop_end [] end room got m h = rw h refl
reply_loop_end (b ∷ left) end zero got m h = rw h refl
reply_loop_end (b ∷ left) end (suc room) got m h = rw h refl

reply_loop_step :
    (s b room : ℕ) (got : Bytes) (left : List ℕ) (m : Machine)
    → has s 0x20 ≡ true
    → reply_loop (s ∷ b ∷ left) (suc room) got m
      ≡ reply_loop left room (got ++ b ∷ []) (after m (read 0 s ∷ read 1 b ∷ []) left)
unfolding reply_loop
reply_loop_step s b room got left m h = rw h (
    ap (reply_loop left room (got ++ b ∷ []))
      (after-append m (read 0 s ∷ []) (read 1 b ∷ []) (b ∷ left) left))

reply_loop_lem :
    (rs : List (ℕ × ℕ)) (end room : ℕ) (got : Bytes) (left : List ℕ) (m : Machine)
    → All (λ r. has r.0 0x20 ≡ true) rs
    → has end 0x20 ≡ false
    → length rs ≤ room
    → reply_loop (announced_values rs end ++ left) room got m
      ≡ done (got ++ reply_bytes rs) (after m (announced_reads rs end) left)
reply_loop_lem [] end room got left m h h' fits =
    reply_loop_end left end room got m h' ∙ rw append-nil refl
reply_loop_lem ((s, b) ∷ rs) end zero got left m h h' fits = absurd (omega arith)
reply_loop_lem ((s, b) ∷ rs) end (suc room) got left m h h' fits =
    reply_loop_step s b room got _ m h.0
    ∙ reply_loop_lem rs end room (got ++ b ∷ []) left _ h.1 h' (omega arith)
    ∙ ap₂ done (append_assoc got (b ∷ []) (reply_bytes rs)) (
        after-append m (read 0 s ∷ read 1 b ∷ []) (announced_reads rs end)
          (announced_values rs end ++ left) left)

pub length-reply_bytes : (rs : List (ℕ × ℕ)) → length (reply_bytes rs) ≡ length rs
length-reply_bytes [] = refl
length-reply_bytes ((s, b) ∷ rs) = ap suc (length-reply_bytes rs)

pub cd_read_reply-Runs :
    (rs : Replies) (room : ℕ)
    → length rs.announced ≤ room
    → room < 256
    → Runs
        (cd_read_reply room)
        (announced_values rs.announced rs.end)
        (write 0 1 ∷ announced_reads rs.announced rs.end)
        (record { bytes = reply_bytes rs.announced; len = length rs.announced })
unfolding cd_read_reply cd_set_page
cd_read_reply-Runs rs room fits small = Runs-made _ made_eq (
    Runs-used (append-nil (announced_values rs.announced rs.end)) (
      >>=-Runs _ _ [] (announced_values rs.announced rs.end ++ []) _ _ tt _ (write_reg-Runs 0 1) (
        >>=-Runs _ _ (announced_values rs.announced rs.end) [] (announced_reads rs.announced rs.end)
          [] (reply_bytes rs.announced) _ read_all counted)))
  where
    made_eq :
        write 0 1 ∷ (announced_reads rs.announced rs.end ++ [])
        ≡ write 0 1 ∷ announced_reads rs.announced rs.end
    made_eq = rw append-nil refl

    read_all :
        Runs
          (λ m. reply_loop m.cd.replies room [] m)
          (announced_values rs.announced rs.end)
          (announced_reads rs.announced rs.end)
          (reply_bytes rs.announced)
    read_all m left e =
        ap (λ (l : List ℕ). reply_loop l room [] m) e
        ∙ reply_loop_lem rs.announced rs.end room [] left m rs.all_announced rs.is_end fits

    exact : u8 (length (reply_bytes rs.announced)) ≡ length rs.announced
    exact = omega (arith, length-reply_bytes rs.announced)

    counted :
        Runs {A = Reply}
          (pure (record {
            bytes = reply_bytes rs.announced;
            len = u8 (length (reply_bytes rs.announced));
          }))
          []
          []
          (record { bytes = reply_bytes rs.announced; len = length rs.announced })
    counted = rw exact (pure-Runs _)

-- `cd_read_reply` reads from page 1 every byte that the controller announces, in order, and returns
-- their number, for a reply that fits the caller's buffer of at most 255 bytes.
pub cd_read_reply_lem :
    (rs : Replies) (room : ℕ) (m : Machine) (left : List ℕ)
    → length rs.announced ≤ room
    → room < 256
    → m.cd.replies ≡ announced_values rs.announced rs.end ++ left
    → cd_read_reply room m
      ≡ done
          (record { bytes = reply_bytes rs.announced; len = length rs.announced })
          (after m (write 0 1 ∷ announced_reads rs.announced rs.end) left)
cd_read_reply_lem rs room m left fits small e = cd_read_reply-Runs rs room fits small m left e

reply_loop_overflows :
    (rs : List (ℕ × ℕ)) (end room : ℕ) (got : Bytes) (left : List ℕ) (m : Machine)
    → All (λ r. has r.0 0x20 ≡ true) rs
    → room < length rs
    → reply_loop (announced_values rs end ++ left) room got m ≡ fault
reply_loop_overflows [] end room got left m h over = absurd (omega arith)
reply_loop_overflows ((s, b) ∷ rs) end zero got left m h over = unfold reply_loop in rw (h.0) refl
reply_loop_overflows ((s, b) ∷ rs) end (suc room) got left m h over =
    reply_loop_step s b room got _ m (h.0)
    ∙ reply_loop_overflows rs end room (got ++ b ∷ []) left _ (h.1) (omega arith)

-- `cd_read_reply` does not know the size of its caller's buffer: a reply that the controller announces with
-- more bytes than fit there is written behind its end.
pub cd_read_reply_overflows :
    (rs : Replies) (room : ℕ) (m : Machine) (left : List ℕ)
    → room < length rs.announced
    → m.cd.replies ≡ announced_values rs.announced rs.end ++ left
    → cd_read_reply room m ≡ fault
unfolding cd_read_reply cd_set_page write_reg
cd_read_reply_overflows rs room m left over e =
    rw (e, ◌>>=◌, reply_loop_overflows rs.announced rs.end room [] left _ rs.all_announced over)
      refl
