-- ===== src/Vfs/Walk.antt =====
-- The walk of `vfs_open` of kernel/fs/vfs.c along a path of names.
use next_os.Prelude.{
  ℕ, zero, suc, ◌+◌, ◌≤◌, ◌<◌, ◌≡◌, refl, ap, ◌∙◌, inl, inr, false, none, some, List, [], ◌∷◌,
  length, get_elem?, length-append, Bool-cases, arith,
}
use next_os.Prelude.Outcome.{done}
use next_os.Disk.{Driver}
use next_os.Ramfs.Strings.{same, slash, is_ramfs_path}
use next_os.Ramfs.Table.{directory}
use next_os.Vfs.{
  Vfs, put_fs, next_component, search_child, walk_found, readdir_op, readdir_typed, vfs_readdir,
  search_dir, walk, walk_disk, vfs_open,
}
use next_os.Vfs.Node.{VfsNode, DiskFs, disk_op, cfg_name}
use next_os.Vfs.Children.{listed}
use next_os.Vfs.Listing.{Directory, Mounted}
use next_os.Vfs.Names.{
  first_named, first_hit, first_miss, some_inj, IsComponent, joined, behind, split_name,
  next_component-name, after_slash, longer, length-behind,
}

module _ {D : Type 0} (drv : Driver D) (scratch : List ℕ) (fuel : ℕ) (P : DiskFs D → Type 0)
    (root : VfsNode) where
  -- A directory of the disk with the nodes `ns`, which the fuel is enough for.
  pub record IsDirectory (dir : VfsNode) (ns : List VfsNode) : Type 0 where
    pub typed : dir.type ≡ directory
    pub by_disk : dir.readdir ≡ disk_op
    pub lists : Directory drv scratch fuel P dir ns
    pub bounded : length ns < fuel

  -- Names that lead from one node to another.
  pub data Leads : VfsNode → List (List ℕ) → VfsNode → Type 0 where
    here : {node : VfsNode} → Leads node [] node
    down :
        {dir child node : VfsNode} {name : List ℕ} {names : List (List ℕ)} (ns : List VfsNode)
        → IsDirectory dir ns
        → IsComponent name
        → first_named name ns ≡ some child
        → Leads child names node
        → Leads dir (name ∷ names) node

  -- A call of `vfs_readdir` on a directory of the disk.
  readdir_step :
      (v : Vfs D) (dir : VfsNode) (ns : List VfsNode) (i : ℕ)
      → IsDirectory dir ns
      → P v.fs
      → (fs : DiskFs D) × (vfs_readdir drv scratch fuel v dir i
          ≡ some (record v { fs = fs }, listed (get_elem? ns i)))
        × P fs
  unfolding vfs_readdir readdir_typed readdir_op put_fs
  readdir_step v dir ns i is p =
      let (fs, run, p') = is.lists v.fs p i in
      (
        fs,
        ap (λ t. readdir_typed drv scratch fuel t v dir i) is.typed
            ∙ ap (λ o. readdir_op drv scratch fuel o v dir i) is.by_disk
            ∙ ap (put_fs v) run,
        p',
      )

  -- The search from index `i` on, where the nodes `rest` are left.
  search_dir-first :
      (n : ℕ) (v : Vfs D) (dir child : VfsNode) (ns rest : List VfsNode) (i : ℕ) (name : List ℕ)
      → IsDirectory dir ns
      → P v.fs
      → ((j : ℕ) → get_elem? ns (i + j) ≡ get_elem? rest j)
      → first_named name rest ≡ some child
      → length rest < n
      → (fs : DiskFs D) × (search_dir drv scratch fuel n v dir i name
          ≡ some (record v { fs = fs }, done child))
        × P fs
  unfolding search_dir search_child first_named
  search_dir-first zero v dir child ns rest i name is p left found lt = absurd (omega arith)
  search_dir-first (suc n) v dir child ns [] i name is p left found lt = absurd (not_none found)
    where
      not_none : none ≡ some child → ⊥
      not_none h = cc
  search_dir-first (suc n) v dir child ns (m ∷ rest) i name is p left found lt =
      let start : i ≡ i + 0 = omega arith in
      let there : get_elem? ns i ≡ some m = ap (get_elem? ns) start ∙ left 0 in
      let (fs, run, p') = readdir_step v dir ns i is p in
      let run' : vfs_readdir drv scratch fuel v dir i ≡ some (record v { fs = fs }, done m) =
        run ∙ ap (λ x. some (record v { fs = fs }, listed x)) there in
      let left' : ((j : ℕ) → get_elem? ns (i + 1 + j) ≡ get_elem? rest j) = λ j.
        let shift : i + 1 + j ≡ i + suc j = omega arith in ap (get_elem? ns) shift ∙ left (suc j) in
      elim (Bool-cases (same m.name name)) [
        | inl hit ↦
            let it : m ≡ child = some_inj (first_hit name m rest hit ∙ found) in
            (fs, rw (run', hit) (ap (λ x. some (record v { fs = fs }, done x)) it), p')
        | inr miss ↦
            let (fs2, more, p2) =
              search_dir-first n (record v { fs = fs }) dir child ns rest (i + 1) name is p' left'
                (first_miss name m rest miss ∙ found) (omega arith) in
            (fs2, rw (run', miss) more, p2)
      ]

  -- One round of the walk.
  walk_round :
      (n : ℕ) (v : Vfs D) (dir : VfsNode) (path : List ℕ)
      → 0 < length path
      → walk drv scratch fuel (suc n) v dir path
        ≡ walk_found
            (search_dir drv scratch fuel fuel v dir 0 (next_component 127 path).0)
            (λ w child. walk drv scratch fuel n w child (next_component 127 path).1)
  unfolding walk
  walk_round n v dir [] pos = absurd (omega arith)
  walk_round n v dir (c ∷ path) pos = refl

  walk-Leads :
      (n : ℕ) (v : Vfs D) (dir node : VfsNode) (names : List (List ℕ))
      → Leads dir names node
      → P v.fs
      → length (joined names) ≤ n
      → (fs : DiskFs D) × (walk drv scratch fuel n v dir (joined names)
          ≡ some (record v { fs = fs }, done node))
        × P fs
  unfolding walk walk_found joined
  walk-Leads n v dir node [] here p le = (v.fs, refl, p)
  walk-Leads zero v dir node (name ∷ names) (down ns is ok found leads) p le = absurd (
      omega (
        arith,
        ok.some_byte,
        ap {B = ℕ} (λ x. length x) (split_name name names),
        length-append name (behind names),
      ))
  walk-Leads (suc n) v dir node (name ∷ names) (down {child = child} ns is ok found leads) p le =
      let split = split_name name names in
      let long : length (joined (name ∷ names)) ≡ length name + length (behind names) =
        ap {B = ℕ} (λ x. length x) split ∙ length-append name (behind names) in
      let parts : next_component 127 (joined (name ∷ names)) ≡ (name, joined names) =
        ap (next_component 127) split ∙ next_component-name 127 name names ok.plain ok.short in
      let (fs, hit, p') =
        search_dir-first fuel v dir child ns ns 0 name is p
          (λ j. let same_index : 0 + j ≡ j = omega arith in ap (get_elem? ns) same_index) found
          is.bounded in
      let (fs2, rest, p2) =
        walk-Leads n (record v { fs = fs }) child node names leads p'
          (omega (arith, long, ok.some_byte, length-behind names)) in
      (
        fs2,
        walk_round n v dir (joined (name ∷ names)) (omega (arith, long, ok.some_byte))
            ∙ ap
                (λ (q : List ℕ × List ℕ).
                  walk_found (search_dir drv scratch fuel fuel v dir 0 q.0)
                    (λ w x. walk drv scratch fuel n w x q.1))
                parts
            ∙ ap (λ r. walk_found r (λ w x. walk drv scratch fuel n w x (joined names))) hit
            ∙ rest,
        p2,
      )

  -- `vfs_open` of a path of names that lead from the root of the disk to a node, each the first with
  -- its name in its directory and of 1 to 127 bytes, gives that node, where the path is none of ramfs
  -- and not that of nextos.cfg.
  pub vfs_open-Leads :
      (v : Vfs D) (node : VfsNode) (name : List ℕ) (names : List (List ℕ))
      → Mounted P root
      → P v.fs
      → Leads root (name ∷ names) node
      → IsComponent name
      → is_ramfs_path (slash ∷ joined (name ∷ names)) ≡ false
      → same (slash ∷ joined (name ∷ names)) (slash ∷ cfg_name) ≡ false
      → (fs : DiskFs D) × (vfs_open drv scratch fuel v (slash ∷ joined (name ∷ names))
          ≡ some (record v { fs = fs }, done node))
        × P fs
  unfolding vfs_open walk_disk
  vfs_open-Leads v node name names mounted p leads ok not_ramfs not_cfg =
      let (fs, run, p') =
        walk-Leads (length (joined (name ∷ names))) v root node (name ∷ names) leads p
          (omega arith) in
      let not_root : same (slash ∷ joined (name ∷ names)) (slash ∷ []) ≡ false =
        longer (joined (name ∷ names)) (
          omega (
            arith,
            ok.some_byte,
            ap {B = ℕ} (λ x. length x) (split_name name names),
            length-append name (behind names),
          )) in
      (
        fs,
        rw
            (
              not_root,
              not_ramfs,
              not_cfg,
              after_slash (joined (name ∷ names)),
              mounted.ready v.fs p,
              mounted.rooted v.fs p,
            )
            run,
        p',
      )
