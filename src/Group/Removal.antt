-- ===== src/Group/Removal.antt =====
-- The links of internal/team/group.go that take the group's key from someone.
use esec_vault.Base.{
  codes, ◌≡◌, ap, Bool, true, false, ◌||◌, some, none, Option, [], ◌∷◌, ◌++◌, ◌-◌, Text, ok, arith,
  lookup, insert, Dict, text_eq, text_eq_iff, lookup-insert, Entries-lookup, is_some, if◌then◌else◌,
  >>=-eq-ok, require_that,
}
use esec_vault.Team.Types.{Person}
use esec_vault.Group.Types.{Link, LinkType, GroupKey, RemoveBody}
use esec_vault.Group.State.{
  kind_text, State, PersonState, CredState, active_in, admin, member, holds_key, cred,
}
use esec_vault.Group.External.{External}
use esec_vault.Group.Creds.{set_key, new_cred, exposure}
use esec_vault.Group.Valid.{kms_name}
use esec_vault.Group.Persons.{new_person, ended, end_member}
use esec_vault.Group.Frame.{active_in-found, cred-found}
use esec_vault.Group.Admins.{set_key-result}
use esec_vault.Group.Rekey.{set_key-IsNewKey}
use esec_vault.Group.Named.{PersonNamed, CredNamed, IsNamed}
use esec_vault.Group.Change.{
  Change, created, admin_added, admin_removed, member_added, member_removed, cred_added,
  workload_rekeyed, cred_removed, key_rotated, access_added, access_removed,
}

-- whether someone is given the group's key: an admin, a member, or an active credential
abbrev pub reads : State → Text → Bool
reads s h = holds_key s h || is_some (cred s h)

-- the name under which an entry stands, by its own id
same_id : (own key h : Text) → text_eq own key ≡ true → text_eq key h ≡ true → text_eq own h ≡ true
same_id own key h a b =
    ground (arith, a, b, text_eq_iff own key, text_eq_iff key h, text_eq_iff own h)

-- making a member an admin touches no other member
end_member-others :
    (p : Person) (o : Option PersonState) (m t : Dict PersonState) (l : Link) (h : Text)
    → end_member o p m l ≡ ok t
    → text_eq p.user h ≡ false
    → lookup h t ≡ lookup h m
end_member-others p none m t l h made other = ground arith
end_member-others p (some a) m t l h made other =
    let (_, same, done) = >>=-eq-ok (require_that (text_eq a.person.root p.root) _) _ made in
    ground (arith, other, done, lookup-insert p.user h (ended a l) m)

-- the credential that a removal leaves
abbrev pub gone_cred : RemoveBody → CredState → Link → CredState
gone_cred b c l = record c {
  active = false;
  removed_seq = l.seq;
  removed_time = l.ctime;
  destroyed = b.destroyed;
  reason = b.reason;
}

-- What a link does that takes the group's key from `h`: it ends an admin, a member or a credential.
pub data Removal (s : State) (l : Link) (h : Text) : State → Type 0 where
  admin_gone :
      (user why : Text) (a : PersonState)
      → text_eq user h ≡ true
      → text_eq a.person.user h ≡ true
      → Removal s l h (record s {
        admins = insert user (ended a l) s.admins;
        key_exposed = s.key_exposed ++ exposure a.person.user a.person.login l why ∷ [];
      })
  member_gone :
      (user why : Text) (m : PersonState)
      → text_eq user h ≡ true
      → text_eq m.person.user h ≡ true
      → Removal s l h (record s {
        members = insert user (ended m l) s.members;
        key_exposed = s.key_exposed ++ exposure m.person.user m.person.login l why ∷ [];
      })
  cred_gone :
      (b : RemoveBody) (c : CredState) (why : Text)
      → text_eq b.id h ≡ true
      → text_eq c.cred.id h ≡ true
      → Removal s l h (record s {
        creds = insert b.id (gone_cred b c l) s.creds;
        active = s.active - 1;
        key_exposed =
            if b.destroyed
            then s.key_exposed
            else s.key_exposed ++ exposure c.cred.id c.cred.name l why ∷ [];
      })

module _ (x : External) (s : State) (l : Link) (h : Text) where
  new_key :
      (k : GroupKey) (t : State)
      → set_key s k l ≡ ok t
      → text_eq t.key.enc_pub s.key.enc_pub ≡ false
  new_key k t made = ground (
    arith,
    ap (λ (v : State). text_eq v.key.enc_pub s.key.enc_pub) (set_key-result s k l t made),
    (set_key-IsNewKey s k l t made).unused,
  )

  -- a new key changes no one's place
  set_key-reads : (k : GroupKey) (t : State) → set_key s k l ≡ ok t → reads t h ≡ reads s h
  unfolding holds_key admin member cred
  set_key-reads k t made = ap (λ (v : State). reads v h) (set_key-result s k l t made)

  admin_removed-lost :
      (user : Text) (a : PersonState)
      → active_in user s.admins ≡ some a
      → IsNamed s
      → reads s h ≡ true
      → reads (record s { admins = insert user (ended a l) s.admins }) h ≡ false
      → (text_eq user h ≡ true) × (text_eq a.person.user h ≡ true)
  unfolding holds_key admin member cred
  admin_removed-lost user a present n before after =
      let own =
        Entries-lookup PersonNamed s.admins user a n.admins
          (active_in-found user s.admins a present).0 in
      let is : text_eq user h ≡ true =
        ground (arith, before, after, lookup-insert user h (ended a l) s.admins) in
      (is, same_id a.person.user user h own is)

  member_removed-lost :
      (user : Text) (m : PersonState)
      → active_in user s.members ≡ some m
      → IsNamed s
      → reads s h ≡ true
      → reads (record s { members = insert user (ended m l) s.members }) h ≡ false
      → (text_eq user h ≡ true) × (text_eq m.person.user h ≡ true)
  unfolding holds_key admin member cred
  member_removed-lost user m present n before after =
      let own =
        Entries-lookup PersonNamed s.members user m n.members
          (active_in-found user s.members m present).0 in
      let is : text_eq user h ≡ true =
        ground (arith, before, after, lookup-insert user h (ended m l) s.members) in
      (is, same_id m.person.user user h own is)

  cred_removed-lost :
      (id : Text) (c v : CredState)
      → cred s id ≡ some c
      → reads s h ≡ true
      → reads (record s { creds = insert id v s.creds }) h ≡ false
      → text_eq id h ≡ true
  unfolding holds_key admin member cred
  cred_removed-lost id c v present before after =
      ground (arith, before, after, lookup-insert id h v s.creds)

  pub Change-Removal :
      (k : LinkType) (t : State)
      → Change x s l k t
      → IsNamed s
      → reads s h ≡ true
      → reads t h ≡ false
      → Removal s l h t
  unfolding holds_key admin member cred
  Change-Removal k _ (created b t at first made) n before after =
      let p = new_person b.creator [] l in
      absurd (
        ground (
          arith,
          set_key-reads b.key t made,
          before,
          after,
          lookup-insert b.creator.user h p t.admins,
        ))
  Change-Removal k _ (admin_added b members other done) n before after = absurd (
      ground (
        arith,
        before,
        after,
        lookup-insert b.admin.user h (new_person b.admin b.verified l) s.admins,
        end_member-others b.admin (active_in b.admin.user s.members) s.members members l h done,
      ))
  Change-Removal k _ (admin_removed b a present kept) n before after =
      let is = admin_removed-lost b.user a present n before after in
      admin_gone b.user (codes "admin removed") a is.0 is.1
  Change-Removal k _ (member_added b decoded other) n before after = absurd (
      ground (
        arith,
        before,
        after,
        lookup-insert b.member.user h (new_person b.member b.verified l) s.members,
      ))
  Change-Removal k _ (member_removed b m why present may) n before after =
      let is = member_removed-lost b.user m present n before after in
      member_gone b.user why m is.0 is.1
  Change-Removal _ _ (cred_added k c kind join adds may fresh keys group) n before after =
      absurd (ground (arith, before, after, lookup-insert c.id h (new_cred c kind join l) s.creds))
  Change-Removal k _ (workload_rekeyed id key c present is) n before after = absurd (
      ground (
        arith,
        before,
        after,
        cred-found s id c present,
        lookup-insert id h
            (record c { cred = record c.cred { kms = some key; enc_pub = kms_name x key } })
            s.creds,
      ))
  Change-Removal k t (cred_removed b c decoded present) n before after =
      let is = cred_removed-lost b.id c (gone_cred b c l) present before after in
      let own = Entries-lookup CredNamed s.creds b.id c n.creds (cred-found s b.id c present).0 in
      cred_gone b c (kind_text c.kind ++ codes " removed") is (same_id c.cred.id b.id h own is)
  Change-Removal k _ (key_rotated key t version made) n before after =
      absurd (ground (arith, set_key-reads key t made, before, after))
  Change-Removal k _ (access_added project root fresh) n before after = absurd (cc)
  Change-Removal k _ (access_removed project) n before after = absurd (cc)
