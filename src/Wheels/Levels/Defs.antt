-- ===== src/Wheels/Levels/Defs.antt =====
-- timermanager.h, timermanager.cpp and list.h. A list of the source is a list of its elements, and a
-- pointer to a TimerNode is its address, an argument of addTimer; an id is a number, and std::hash a
-- parameter. A callback is a handle, and touches no timer; those run are kept in order.
use pqnet.Common.{
  ℕ, zero, suc, ◌+◌, ◌-◌, ◌*◌, ◌/◌, ◌%◌, ◌^◌, Bool, true, false, not, ◌&&◌, ◌||◌, Option, none,
  some, List, [], ◌∷◌, ◌++◌, ltb, ◌==◌, if◌then◌else◌, ◌>>=◌,
}
use pqnet.Common.Words.{add_size, sub_size, mul_uint, uint_mod}

pub record TimerNode : Type 0 where
  pub address : ℕ
  pub sid : ℕ
  pub timercb : ℕ
  pub arg : ℕ
  pub interval : ℕ
  pub endtime : ℕ

unfoldable pub is_periodic : TimerNode → Bool
is_periodic node = ltb 0 node.interval

pub data Wheel : Type 0 where
  tw1 tw2 tw3 tw4 tw5 : Wheel

abbrev pub same_wheel : Wheel → Wheel → Bool
same_wheel tw1 tw1 = true
same_wheel tw2 tw2 = true
same_wheel tw3 tw3 = true
same_wheel tw4 tw4 = true
same_wheel tw5 tw5 = true
same_wheel _ _ = false

abbrev pub Slots : Type 0
Slots = Wheel → ℕ → List TimerNode

-- A bucket of the table holds the nodes' addresses and ids.
pub record TimerManager : Type 0 where
  pub rm_node : Option ℕ
  pub jiffies : ℕ
  pub htable : ℕ → List (ℕ × ℕ)
  pub slots : Slots
  pub ran : List TimerNode

unfoldable pub new : ℕ → TimerManager
new clock = record {
  rm_node = none;
  jiffies = clock;
  htable = λ i. [];
  slots = λ w i. [];
  ran = [];
}

-- `slot->push_back(node)`
unfoldable pub push_back : Wheel → ℕ → TimerNode → Slots → Slots
push_back w i node s = λ w' i'. if same_wheel w w' && i == i' then s w' i' ++ node ∷ [] else s w' i'

-- The slot without its elements.
unfoldable pub clear : Wheel → ℕ → Slots → Slots
clear w i s = λ w' i'. if same_wheel w w' && i == i' then [] else s w' i'

-- The wheel and the index that addTimerNode chooses, at a time. The test of a negative `signed long`
-- stands on a 64-bit `long`, to which a `uint` is never negative.
abbrev pub slot_in : ℕ → ℕ → Wheel × ℕ
slot_in expiration endtime =
    if ltb expiration 256
    then (tw1, endtime % 256)
    else if ltb expiration (2 ^ 14)
    then (tw2, (endtime / 2 ^ 8) % 64)
    else if ltb expiration (2 ^ 20)
    then (tw3, (endtime / 2 ^ 14) % 64)
    else if ltb expiration (2 ^ 26)
    then (tw4, (endtime / 2 ^ 20) % 64)
    else (tw5, (endtime / 2 ^ 26) % 64)

unfoldable pub slot_of : ℕ → ℕ → Wheel × ℕ
slot_of jiffies endtime = slot_in (sub_size endtime jiffies % uint_mod) endtime

unfoldable pub add_timer_node : TimerNode → TimerManager → TimerManager
add_timer_node node m =
    let (w, i) = slot_of m.jiffies node.endtime in record m { slots = push_back w i node m.slots }

-- Whether addTimerNode puts the node in the slot.
abbrev pub lands : Wheel → ℕ → ℕ → TimerNode → Bool
lands w i jiffies node = let (w', i') = slot_of jiffies node.endtime in same_wheel w w' && i == i'

abbrev pub is_last : List TimerNode → Bool
is_last [] = true
is_last (node ∷ nodes) = false

-- The loop of `cascade` over the nodes of its slot, emptied. A node that lands in that slot again,
-- before the last, would be met again by the loop, and is left out: `none`.
unfoldable pub move_each : Wheel → ℕ → List TimerNode → TimerManager → Option TimerManager
move_each w i [] m = some m
move_each w i (node ∷ nodes) m =
    let rest = move_each w i nodes (add_timer_node node m) in
    if lands w i m.jiffies node && not (is_last nodes) then none else rest

unfoldable pub cascade : Wheel → ℕ → TimerManager → Option (ℕ × TimerManager)
cascade w n m = do
  let i = (m.jiffies / 2 ^ (8 + n * 6)) % 64
  m1 ← move_each w i (m.slots w i) (record m { slots = clear w i m.slots })
  some (i, m1)

-- `!cascade(tw2, 0) && !cascade(tw3, 1) && …`: each after the one before gave 0.
unfoldable pub cascades : List (Wheel × ℕ) → TimerManager → Option TimerManager
cascades [] m = some m
cascades ((w, n) ∷ ws) m =
    cascade w n m >>= λ (i, m1). let rest = cascades ws m1 in if i == 0 then rest else some m1

abbrev pub wheels : List (Wheel × ℕ)
wheels = (tw2, 0) ∷ (tw3, 1) ∷ (tw4, 2) ∷ (tw5, 3) ∷ []

-- `delete node->htNode`
abbrev pub without : ℕ → List (ℕ × ℕ) → List (ℕ × ℕ)
without a [] = []
without a ((b, sid) ∷ es) = if b == a then without a es else (b, sid) ∷ without a es

abbrev pub is_marked : Option ℕ → ℕ → Bool
is_marked none a = false
is_marked (some b) a = b == a

abbrev pub renewed : ℕ → TimerNode → TimerNode
renewed jiffies node = record node { endtime = add_size jiffies (mul_uint node.interval 1000) }

-- `handle` at one node of the slot of `tw1`, emptied before: a node whose address is marked stays.
unfoldable pub serve : ℕ → TimerNode → TimerManager → TimerManager
serve i node m =
    let m1 = record m { ran = m.ran ++ node ∷ [] } in
    if is_marked m.rm_node node.address
    then record m1 { rm_node = none; slots = push_back tw1 i node m.slots }
    else if is_periodic node
    then add_timer_node (renewed m.jiffies node) m1
    else record m1 { htable = λ b. without node.address (m.htable b) }

-- A node that is renewed into the slot before the last is left out here too.
unfoldable pub serve_each : ℕ → List TimerNode → TimerManager → Option TimerManager
serve_each i [] m = some m
serve_each i (node ∷ nodes) m =
    let rest = serve_each i nodes (serve i node m) in
    let again = lands tw1 i m.jiffies (renewed m.jiffies node) && not (is_last nodes) in
    if is_periodic node && again && not (is_marked m.rm_node node.address) then none else rest

-- One turn of the loop in `handle`.
unfoldable pub tick : TimerManager → Option TimerManager
tick m = do
  let i = m.jiffies % 256
  let cascaded = cascades wheels m
  m1 ← (if i == 0 then cascaded else some m)
  m2 ← serve_each i (m1.slots tw1 i) (record m1 { slots = clear tw1 i m1.slots })
  some (record m2 { jiffies = add_size m2.jiffies 1 })

-- The turns of `handle`: one for each time from `jiffies` to the clock's, its own count.
unfoldable pub ticks : ℕ → TimerManager → Option TimerManager
ticks zero m = some m
ticks (suc n) m = tick m >>= ticks n

unfoldable pub handle : ℕ → TimerManager → Option TimerManager
handle curr_jiffies m = ticks (curr_jiffies + 1 - m.jiffies) m

abbrev pub dropped : ℕ → List TimerNode → List TimerNode
dropped a [] = []
dropped a (x ∷ xs) = if x.address == a then dropped a xs else x ∷ dropped a xs

-- `delete node->htNode; delete node->twNode; delete node;`
unfoldable pub delete_node : ℕ → TimerManager → TimerManager
delete_node a m = record m {
  htable = λ b. without a (m.htable b);
  slots = λ w i. dropped a (m.slots w i);
}

module _ (hash : ℕ → ℕ) where
  -- `htable.push_back(node)`
  abbrev pub enter : TimerNode → TimerManager → TimerManager
  enter node m = record m {
    htable = λ b.
        if b == hash node.sid % 256
        then m.htable b ++ (node.address, node.sid) ∷ []
        else m.htable b;
  }

  unfoldable pub add_timer : ℕ → ℕ → ℕ → ℕ → ℕ → ℕ → TimerManager → TimerManager
  add_timer address sid cb arg expiration interval m =
      let node : TimerNode = record {
        address = address;
        sid = sid;
        timercb = cb;
        arg = arg;
        interval = interval;
        endtime = add_size m.jiffies (mul_uint expiration 1000);
      } in
      add_timer_node node (enter node m)

  -- `erase` over a bucket, for an id that the node at `rm` holds: `none` is a comparison with it once
  -- that node is deleted.
  unfoldable pub erase_each : ℕ → ℕ → Bool → List (ℕ × ℕ) → TimerManager → Option TimerManager
  erase_each rm sid freed [] m = some m
  erase_each rm sid freed ((a, s) ∷ es) m =
      let kept = erase_each rm sid freed es m in
      let deleted = erase_each rm sid (freed || a == rm) es (delete_node a m) in
      if hash s == hash sid
      then if freed then none else if s == sid then deleted else kept
      else kept

  -- `tid` is the node's address, and `sid` its id.
  unfoldable pub del_timer : ℕ → ℕ → TimerManager → Option TimerManager
  del_timer tid sid m =
      erase_each tid sid false (m.htable (hash sid % 256)) (record m { rm_node = some tid })
