-- ===== src/Vfs/Listing.antt =====
-- What a caller of `vfs_root_readdir` of kernel/fs/vfs.c sees, over a file system of the disk that
-- lists its root.
use next_os.Prelude.{
  ℕ, zero, suc, ◌+◌, ◌-◌, ◌≤◌, ◌<◌, ◌≡◌, refl, sym, ap, ◌∙◌, inl, inr, true, false, Option, none,
  some, List, [], ◌∷◌, ◌++◌, ltb, ◌==◌, length, get_elem?, Bool-cases, arith,
}
use mathlib.Core.Path.{ap₂}
use native.Mathlib.Decide.{dec_lt, ℕ_discrete}
use next_os.Prelude.Outcome.{Outcome, error, done}
use next_os.Disk.{Driver}
use next_os.Ramfs.Strings.{slash}
use next_os.Ramfs.Table.{Ramfs, max_files}
use next_os.Vfs.Node.{VfsNode, DiskFs, disk_root, cfg_node, readdir_disk}
use next_os.Vfs.Root.{
  count_ramfs, hidden, RootScan, found_node, seen, root_entry, root_end, is_ready, scan_root,
  root_behind, vfs_root_readdir,
}
use next_os.Vfs.Shown
use next_os.Vfs.Children.{
  listed, root_children, visible, root-listed, length-child_nodes, count_ramfs-length,
  get_elem_left, get_elem_right,
}

-- A directory of the disk in the states that satisfy `P`: its `readdir` gives the nodes `ns`, one
-- under each index, and stays in such a state.
abbrev pub Directory :
    {D : Type 0} → Driver D → List ℕ → ℕ → (DiskFs D → Type 0) → VfsNode → List VfsNode → Type 0
Directory {D = D} drv scratch fuel P dir ns =
    (g : DiskFs D)
    → P g
    → (index : ℕ)
    → (g' : DiskFs D) × (readdir_disk drv scratch fuel g dir index
        ≡ some (g', listed (get_elem? ns index)))
      × P g'

-- The states in which the disk's file system is ready, with one root.
pub record Mounted {D : Type 0} (P : DiskFs D → Type 0) (root : VfsNode) : Type 0 where
  pub ready : (g : DiskFs D) → P g → is_ready g ≡ true
  pub rooted : (g : DiskFs D) → P g → disk_root g ≡ root

none_shown : visible [] ≡ []
unfolding visible
none_shown = refl

-- What the loop makes of an entry.
module _ {D : Type 0} (g : DiskFs D) (m : VfsNode) (count index : ℕ)
    (next : DiskFs D → ℕ → Option (DiskFs D × Outcome RootScan)) where
  goes_past : hidden m.name ≡ true → root_entry (some (g, done m)) count index next ≡ next g count
  unfolding root_entry
  goes_past h = rw h refl

  stops_at :
      hidden m.name ≡ false
      → (count == index) ≡ true
      → root_entry (some (g, done m)) count index next ≡ some (g, done (found_node m))
  unfolding root_entry
  stops_at h e = rw (h, e) refl

  goes_on :
      hidden m.name ≡ false
      → (count == index) ≡ false
      → root_entry (some (g, done m)) count index next ≡ next g (count + 1)
  unfolding root_entry
  goes_on h e = rw (h, e) refl

module _ {D : Type 0} (drv : Driver D) (scratch : List ℕ) (fuel : ℕ) (P : DiskFs D → Type 0)
    (root : VfsNode) where
  passed_over :
      (n : VfsNode) (ns : List VfsNode) → hidden n.name ≡ true → visible (n ∷ ns) ≡ visible ns
  unfolding visible
  passed_over n ns h = rw (Shown.unseen n.name h) refl

  kept_node :
      (n : VfsNode) (ns : List VfsNode) → hidden n.name ≡ false → visible (n ∷ ns) ≡ n ∷ visible ns
  unfolding visible
  kept_node n ns h = rw (Shown.seen n.name h) refl

  -- The loop from index `i` on, where the nodes `ns` are left, and its end.
  Ends : ℕ → DiskFs D → ℕ → ℕ → ℕ → List VfsNode → Type 0
  Ends n g i count index ns =
      (g' : DiskFs D) × (root_end index (scan_root drv scratch fuel n g i count index)
        ≡ some (g', listed (get_elem? (visible ns ++ (cfg_node ∷ [])) (index - count))))
      × P g'

  one_round :
      (n : ℕ) (g g' : DiskFs D) (i count index : ℕ) (o : Outcome VfsNode)
      → disk_root g ≡ root
      → readdir_disk drv scratch fuel g root i ≡ some (g', o)
      → scan_root drv scratch fuel (suc n) g i count index
        ≡ root_entry
            (some (g', o))
            count
            index
            (λ w k. scan_root drv scratch fuel n w (i + 1) k index)
  unfolding scan_root
  one_round n g g' i count index o rooted listed_as = rw (rooted, listed_as) refl

  past_all :
      (g : DiskFs D) (count index : ℕ)
      → count ≤ index
      → root_end index (some (g, done (seen count)))
        ≡ some (g, listed (get_elem? (cfg_node ∷ []) (index - count)))
  unfolding root_end
  past_all g count index le = elim (ℕ_discrete count index) [
    | yes there_now ↦
        let test : (count == index) ≡ true = ground arith in
        let first : index - count ≡ 0 = omega arith in rw (test, first) refl
    | no off ↦
        let test : (count == index) ≡ false = ground arith in
        let later : index - count ≡ suc (index - count - 1) = omega arith in rw (test, later) refl
  ]

  scan_root-Ends :
      (n : ℕ) (ms ns : List VfsNode) (g : DiskFs D) (i count index : ℕ)
      → Mounted P root
      → Directory drv scratch fuel P root ms
      → ((j : ℕ) → get_elem? ms (i + j) ≡ get_elem? ns j)
      → P g
      → count ≤ index
      → length ns < n
      → Ends n g i count index ns
  unfolding Ends root_entry root_end
  scan_root-Ends zero ms ns g i count index mounted dir left p le fuel_left = absurd (omega arith)
  scan_root-Ends (suc n) ms [] g i count index mounted dir left p le fuel_left =
      let start : i ≡ i + 0 = omega arith in
      let (g', run, p') = dir g p i in
      let none_left : get_elem? ms i ≡ none = ap (get_elem? ms) start ∙ left 0 in
      (
        g',
        ap (root_end index) (
              one_round n g g' i count index error (mounted.rooted g p)
                (run ∙ ap (λ x. some (g', listed x)) none_left))
            ∙ past_all g' count index le
            ∙ ap (λ x. some (g', listed (get_elem? (x ++ (cfg_node ∷ [])) (index - count))))
                (sym none_shown),
        p',
      )
  scan_root-Ends (suc n) ms (m ∷ ns) g i count index mounted dir left p le fuel_left =
      let start : i ≡ i + 0 = omega arith in
      let (g', run, p') = dir g p i in
      let there : get_elem? ms i ≡ some m = ap (get_elem? ms) start ∙ left 0 in
      let entry =
        one_round n g g' i count index (done m) (mounted.rooted g p)
          (run ∙ ap (λ x. some (g', listed x)) there) in
      let next = λ (w : DiskFs D) (k : ℕ). scan_root drv scratch fuel n w (i + 1) k index in
      let left' : ((j : ℕ) → get_elem? ms (i + 1 + j) ≡ get_elem? ns j) = λ j.
        let shift : i + 1 + j ≡ i + suc j = omega arith in ap (get_elem? ms) shift ∙ left (suc j) in
      elim (Bool-cases (hidden m.name)) [
        | inl skip ↦
            let (g2, rest, p2) =
              scan_root-Ends n ms ns g' (i + 1) count index mounted dir left' p' le (omega arith) in
            (
              g2,
              ap (root_end index) (entry ∙ goes_past g' m count index next skip)
                  ∙ rest
                  ∙ ap (λ x. some (g2, listed (get_elem? (x ++ (cfg_node ∷ [])) (index - count))))
                      (sym (passed_over m ns skip)),
              p2,
            )
        | inr here ↦ elim (ℕ_discrete count index) [
          | yes there_now ↦
              let first : 0 ≡ index - count = omega arith in
              (
                g',
                ap (root_end index) (entry ∙ stops_at g' m count index next here (ground arith))
                    ∙ ap₂ (λ x q. some (g', listed (get_elem? (x ++ (cfg_node ∷ [])) q)))
                        (sym (kept_node m ns here)) first,
                p',
              )
          | no off ↦
              let later : suc (index - (count + 1)) ≡ index - count = omega arith in
              let (g2, rest, p2) =
                scan_root-Ends n ms ns g' (i + 1) (count + 1) index mounted dir left' p'
                  (omega arith) (omega arith) in
              (
                g2,
                ap (root_end index) (entry ∙ goes_on g' m count index next here (ground arith))
                    ∙ rest
                    ∙ ap₂ (λ x q. some (g2, listed (get_elem? (x ++ (cfg_node ∷ [])) q)))
                        (sym (kept_node m ns here)) later,
                p2,
              )
        ]
      ]

  -- `vfs_root_readdir` over a ready file system of the disk whose root has the nodes `ns`, with fuel for
  -- more than these, and a table of at most 128 entries, ends, and gives the node at the index among
  -- the children of the root of ramfs, then those nodes that are shown, which are all but those named . or ..,
  -- Desktop, Documents, Images or nextos.cfg, then nextos.cfg; or -1 behind them.
  pub vfs_root_readdir-lists :
      (fs : DiskFs D) (r : Ramfs) (ns : List VfsNode) (index : ℕ)
      → Mounted P root
      → Directory drv scratch fuel P root ns
      → P fs
      → length r.entries ≤ max_files
      → length ns < fuel
      → (fs' : DiskFs D) × (vfs_root_readdir drv scratch fuel fs r index
          ≡ some
              (fs', listed (get_elem? (root_children r ++ (visible ns ++ (cfg_node ∷ []))) index)))
        × P fs'
  unfolding vfs_root_readdir root_behind Ends
  vfs_root_readdir-lists fs r ns index mounted dir p table enough =
      let cs = root_children r in
      let count : count_ramfs 129 r 0 ≡ some (length cs) =
        count_ramfs-length 129 r 0 (omega arith)
          (omega (arith, length-child_nodes r (slash ∷ []) 0 r.entries)) in
      elim (dec_lt index (length cs)) [
        | yes inside ↦
            let test : ltb index (length cs) ≡ true = ground arith in
            (
              fs,
              rw (count, test)
                  (ap (λ x. some (fs, x))
                    (root-listed r index
                      ∙ ap listed
                          (sym (get_elem_left cs (visible ns ++ (cfg_node ∷ [])) index inside)))),
              p,
            )
        | no behind ↦
            let test : ltb index (length cs) ≡ false = ground arith in
            let whole : index - length cs - 0 ≡ index - length cs = omega arith in
            let (fs', run, p') =
              scan_root-Ends fuel ns ns fs 0 0 (index - length cs) mounted dir
                (λ j. ap (get_elem? ns) (omega arith)) p (omega arith) enough in
            (
              fs',
              rw (count, test, mounted.ready fs p)
                  (run
                    ∙ ap (λ q. some (fs', listed (get_elem? (visible ns ++ (cfg_node ∷ [])) q)))
                        whole
                    ∙ ap (λ x. some (fs', listed x))
                        (sym
                          (get_elem_right cs (visible ns ++ (cfg_node ∷ [])) index (omega arith)))),
              p',
            )
      ]
