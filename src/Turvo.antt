-- ===== src/Turvo.antt =====
-- Reading Turvo shipments: the route of a payload (app/integrations/turvo/shipments.py,
-- app/domain/shipment_route_locations.py).
pub mod Route
pub mod Projection
