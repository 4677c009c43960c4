-- ===== src/Dht/Node/Overlap.antt =====
-- internal/dht/dht.go: two calls of `AddNode` that overlap. The mutex of the table is free while a contact
-- is pinged, so that each call is two critical sections with a ping between them.
